-- ===== src/Crypto/Stream/Places.antt =====
-- A chunk opens in its own place only.
use yandex_go_final_diploma.Prelude.{
  ℕ, ◌^◌, ◌<◌, Bool, true, false, Option, none, some, [], ◌∷◌, ◌++◌, ◌≡◌, refl, sym, ap, ◌∙◌,
  length, if◌then◌else◌, arith, Bool-cases, inl, inr,
}
use yandex_go_final_diploma.Exec.{ok}
use yandex_go_final_diploma.Exec.Returns.{ok-injective}
use yandex_go_final_diploma.Server.Domain.{Bytes}
use yandex_go_final_diploma.Crypto.Bytes.{put_uint32, put_uint64, put_uint64-injective}
use yandex_go_final_diploma.Crypto.Lists.{heads}
use yandex_go_final_diploma.Crypto.Aead.{Aead, Authentic, CryptoErr, bad_key}
use yandex_go_final_diploma.Crypto.Stream.{
  StreamEncrypter, StreamDecrypter, chunk_nonce, chunk_ad, chunk_opened, seal_chunk, open_chunk,
}

uint64_long : (v : ℕ) → length (put_uint64 v) ≡ 8
unfolding put_uint64 put_uint32
uint64_long v = refl

-- The nonces of a stream are different below 2 ^ 64 chunks, and those of different streams are different.
pub chunk_nonce-injective :
    (id id' : Bytes) (c c' : ℕ)
    → length id ≡ length id'
    → c < 2 ^ 64
    → c' < 2 ^ 64
    → chunk_nonce id c ≡ chunk_nonce id' c'
    → (id ≡ id') × (c ≡ c')
unfolding chunk_nonce
chunk_nonce-injective id id' c c' l below below' h =
    let (ids, counters) = heads id id' (put_uint64 c) (put_uint64 c') l h in
    (ids, put_uint64-injective c c' below below' counters)

same_flag :
    (l l' : Bool)
    → ◌≡◌ {A = Bytes} ((if l then 1 else 0) ∷ []) ((if l' then 1 else 0) ∷ [])
    → l ≡ l'
same_flag true true h = refl
same_flag true false h = ground (arith, h)
same_flag false true h = ground (arith, h)
same_flag false false h = refl

chunk_ad-last :
    (base : Bytes) (c : ℕ) (l l' : Bool) → chunk_ad base c l ≡ chunk_ad base c l' → l ≡ l'
unfolding chunk_ad
chunk_ad-last base c l l' h =
    same_flag l l' (heads (base ++ put_uint64 c) (base ++ put_uint64 c) _ _ refl h).1

module _ (x : Aead) (laws : Authentic x) (key base id id' : Bytes) (c c' : ℕ)
    (last last' done : Bool) where
  abbrev sender : StreamEncrypter
  sender = record { key = key; base_ad = base; stream_id = id; counter = c }

  abbrev receiver : StreamDecrypter
  receiver = record { key = key; base_ad = base; stream_id = id'; counter = c'; done = done }

  sealed_as :
      (p ct : Bytes)
      → (seal_chunk x p last sender).0 ≡ ok ct
      → (bad_key key ≡ false) × (x.seal key (chunk_nonce id c) p (chunk_ad base c last) ≡ ct)
  unfolding seal_chunk
  sealed_as p ct h = elim (Bool-cases (bad_key key)) [
    | inl bad ↦ ground (arith, bad, h)
    | inr k ↦ (k, ok-injective {E = CryptoErr} (ground (arith, k, h)))
  ]

  chunk_opened-some :
      (o : Option Bytes) (d : StreamDecrypter) (q : Bytes)
      → (chunk_opened x last' o d).0 ≡ ok q
      → o ≡ some q
  chunk_opened-some none d q h = ground (arith, h)
  chunk_opened-some (some r) d q h = ap some (ok-injective h)

  opened_as :
      (ct q : Bytes)
      → bad_key key ≡ false
      → (open_chunk x ct last' receiver).0 ≡ ok q
      → x.open_sealed key (chunk_nonce id' c') ct (chunk_ad base c' last') ≡ some q
  unfolding open_chunk
  opened_as ct q k h = elim (Bool-cases done) [
    | inl finished ↦ ground (arith, finished, h)
    | inr going ↦ chunk_opened-some _ receiver q (sym (ap (λ r. r.0) (opens_next going)) ∙ h)
  ]
    where
      opens_next :
          done ≡ false
          → open_chunk x ct last' receiver
            ≡ chunk_opened x last'
                (x.open_sealed key (chunk_nonce id' c') ct (chunk_ad base c' last'))
                receiver
      opens_next going = rw (going, k)

  -- With an authentic cipher: a chunk that one side sealed opens on the other, under the same key and
  -- context and below 2 ^ 64 chunks, only in the same stream, at the same place, and with the same mark
  -- of the last chunk.
  pub open_chunk-seal :
      (p ct q : Bytes)
      → length id ≡ length id'
      → c < 2 ^ 64
      → c' < 2 ^ 64
      → (seal_chunk x p last sender).0 ≡ ok ct
      → (open_chunk x ct last' receiver).0 ≡ ok q
      → (id ≡ id') × (c ≡ c') × (last ≡ last')
  open_chunk-seal p ct q l below below' s o =
      let (k, made) = sealed_as p ct s in
      let (nonces, ads) =
        laws.authentic key (chunk_nonce id c) p (chunk_ad base c last) (chunk_nonce id' c')
          (chunk_ad base c' last') q
          (ap (λ t. x.open_sealed key (chunk_nonce id' c') t (chunk_ad base c' last')) made
            ∙ opened_as ct q k o) in
      let (ids, places) = chunk_nonce-injective id id' c c' l below below' nonces in
      (
        ids,
        places,
        chunk_ad-last base c last last' (ads ∙ ap (λ n. chunk_ad base n last') (sym places)),
      )
