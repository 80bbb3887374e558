-- ===== src/Crypto/Stream/Order.antt =====
-- Chunk after chunk of cryptoimpl/stream_aead.go: the counters of the two sides.
use yandex_go_final_diploma.Prelude.{
  ℕ, suc, ◌+◌, ◌^◌, ◌<◌, Bool, false, some, none, Option, List, [], ◌∷◌, ◌≡◌, refl, sym, ap, ◌∙◌,
  subst, length, ◌==◌, inl, inr, Bool-cases, Option-cases, arith,
}
use yandex_go_final_diploma.Exec.{Exec, ok, pure, ◌>>=◌}
use yandex_go_final_diploma.Exec.Returns.{bind-ends, ok-injective}
use yandex_go_final_diploma.Server.Domain.{Bytes}
use yandex_go_final_diploma.Crypto.Aead.{Aead, Authentic, CryptoErr, Entropy, bad_key}
use yandex_go_final_diploma.Crypto.Stream.{
  StreamEncrypter, StreamDecrypter, stream_id_size, next_counter, new_stream_encrypter,
  new_stream_decrypter, chunk_nonce, chunk_ad, chunk_opened, seal_chunk, open_chunk,
}
use yandex_go_final_diploma.Crypto.Stream.Places.{open_chunk-seal}

module _ (x : Aead) where
  -- One chunk after the other is sealed, or opened, each with its mark of the last one.
  unfoldable pub seal_all : List (Bytes × Bool) → Exec StreamEncrypter CryptoErr (List Bytes)
  seal_all [] = pure []
  seal_all ((p, last) ∷ chunks) = do
    ct ← seal_chunk x p last
    cts ← seal_all chunks
    pure (ct ∷ cts)

  unfoldable pub open_all : List (Bytes × Bool) → Exec StreamDecrypter CryptoErr (List Bytes)
  open_all [] = pure []
  open_all ((ct, last) ∷ chunks) = do p ← open_chunk x ct last; ps ← open_all chunks; pure (p ∷ ps)

  abbrev sealing_at : StreamEncrypter → ℕ → StreamEncrypter
  sealing_at e c = record e { counter = c }

  next_counter-below : (c : ℕ) → c + 1 < 2 ^ 64 → next_counter c ≡ c + 1
  next_counter-below c below = omega (arith, below)

  seal_chunk-next :
      (p : Bytes) (last : Bool) (e : StreamEncrypter) (ct : Bytes)
      → (seal_chunk x p last e).0 ≡ ok ct
      → (seal_chunk x p last e).1 ≡ sealing_at e (next_counter e.counter)
  unfolding seal_chunk
  seal_chunk-next p last e ct h = elim (Bool-cases (bad_key e.key)) [
    | inl bad ↦ ground (arith, bad, h)
    | inr good ↦ rw good refl
  ]

  seal_all-counter :
      (chunks : List (Bytes × Bool)) (e : StreamEncrypter) (cts : List Bytes)
      → e.counter + length chunks < 2 ^ 64
      → (seal_all chunks e).0 ≡ ok cts
      → (seal_all chunks e).1 ≡ sealing_at e (e.counter + length chunks)
  unfolding seal_all
  seal_all-counter [] e cts below h = ap (sealing_at e) (omega arith)
  seal_all-counter ((p, last) ∷ chunks) e cts below h =
      let Q : StreamEncrypter → Type 0 = λ s. s ≡ sealing_at e (e.counter + suc (length chunks)) in
      bind-ends Q (seal_chunk x p last) _ e cts h λ ct made rest.
        bind-ends Q (seal_all chunks) (λ cts'. pure (ct ∷ cts')) (seal_chunk x p last e).1 cts rest
          λ cts' sealed _.
            subst (λ s. (seal_all chunks s).0 ≡ ok cts' → Q (seal_all chunks s).1)
              (sym (
                seal_chunk-next p last e ct made
                ∙ ap (sealing_at e) (next_counter-below e.counter (omega (arith, below)))))
              (λ k.
                seal_all-counter chunks (sealing_at e (e.counter + 1)) cts' (omega (arith, below)) k
                ∙ ap (sealing_at e) (omega arith))
              sealed

  abbrev opening_at : StreamDecrypter → ℕ → Bool → StreamDecrypter
  opening_at d c done = record d { counter = c; done = done }

  abbrev Opening : StreamDecrypter → ℕ → StreamDecrypter → Type 0
  Opening d c s = (done : Bool) × (s ≡ opening_at d c done)

  chunk_opened-next :
      (last : Bool) (o : Option Bytes) (d : StreamDecrypter) (p : Bytes)
      → (chunk_opened x last o d).0 ≡ ok p
      → Opening d (next_counter d.counter) (chunk_opened x last o d).1
  chunk_opened-next last none d p h = ground (arith, h)
  chunk_opened-next last (some q) d p h = (_, refl)

  open_chunk-next :
      (ct : Bytes) (last : Bool) (d : StreamDecrypter) (p : Bytes)
      → (open_chunk x ct last d).0 ≡ ok p
      → Opening d (next_counter d.counter) (open_chunk x ct last d).1
  open_chunk-next ct last d p h = elim (Bool-cases d.done) [
    | inl over ↦ unfold open_chunk in ground (arith, over, h)
    | inr going ↦ elim (Bool-cases (bad_key d.key)) [
      | inl bad ↦ unfold open_chunk in ground (arith, going, bad, h)
      | inr good ↦
          let same : open_chunk x ct last d
              ≡ chunk_opened x last
                  (x.open_sealed d.key (chunk_nonce d.stream_id d.counter) ct
                    (chunk_ad d.base_ad d.counter last))
                  d =
            unfold open_chunk in rw (going, good) refl in
          subst (λ s. s.0 ≡ ok p → Opening d (next_counter d.counter) s.1) (sym same)
            (chunk_opened-next last _ d p) h
    ]
  ]

  open_all-counter :
      (chunks : List (Bytes × Bool)) (d : StreamDecrypter) (ps : List Bytes)
      → d.counter + length chunks < 2 ^ 64
      → (open_all chunks d).0 ≡ ok ps
      → Opening d (d.counter + length chunks) (open_all chunks d).1
  unfolding open_all
  open_all-counter [] d ps below h = (d.done, ap (λ c. opening_at d c d.done) (omega arith))
  open_all-counter ((ct, last) ∷ chunks) d ps below h =
      let Q : StreamDecrypter → Type 0 = Opening d (d.counter + suc (length chunks)) in
      bind-ends Q (open_chunk x ct last) _ d ps h λ p opened rest.
        bind-ends Q (open_all chunks) (λ ps'. pure (p ∷ ps')) (open_chunk x ct last d).1 ps rest
          λ ps' more _.
            let (done, next) = open_chunk-next ct last d p opened in
            subst (λ s. (open_all chunks s).0 ≡ ok ps' → Q (open_all chunks s).1)
              (sym (
                next
                ∙ ap (λ c. opening_at d c done)
                    (next_counter-below d.counter (omega (arith, below)))))
              (λ k.
                let (b, e) =
                  open_all-counter chunks (opening_at d (d.counter + 1) done) ps'
                    (omega (arith, below)) k in
                (b, e ∙ ap (λ c. opening_at d c b) (omega arith)))
              more

  new_stream_encrypter-ok :
      (entropy : Entropy) (key base : Bytes) (e : StreamEncrypter)
      → ((n : ℕ) (b : Bytes) → entropy n ≡ some b → length b ≡ n)
      → new_stream_encrypter entropy key base ≡ ok e
      → (id : Bytes) × (length id ≡ stream_id_size)
        × (e ≡ record { key = key; base_ad = base; stream_id = id; counter = 0 })
  unfolding new_stream_encrypter
  new_stream_encrypter-ok entropy key base e fills h = elim (Bool-cases (bad_key key)) [
    | inl bad ↦ ground (arith, bad, h)
    | inr good ↦ elim (Option-cases (entropy stream_id_size)) [
      | inl none_left ↦ ground (arith, good, none_left, h)
      | inr (id, drawn) ↦ (
        id,
        fills stream_id_size id drawn,
        sym (ok-injective {E = CryptoErr} (ground (arith, good, drawn, h))),
      )
    ]
  ]

  new_stream_decrypter-ok :
      (key base id : Bytes) (d : StreamDecrypter)
      → new_stream_decrypter key base id ≡ ok d
      → (length id ≡ stream_id_size)
        × (d ≡ record { key = key; base_ad = base; stream_id = id; counter = 0; done = false })
  unfolding new_stream_decrypter
  new_stream_decrypter-ok key base id d h = elim (Bool-cases (bad_key key)) [
    | inl bad ↦ ground (arith, bad, h)
    | inr good ↦ elim (Bool-cases (length id == stream_id_size)) [
      | inr other ↦ ground (arith, good, other, h)
      | inl sized ↦ (
        ground (arith, sized),
        sym (ok-injective {E = CryptoErr} (ground (arith, good, sized, h))),
      )
    ]
  ]

  -- With an authentic cipher and randomness that fills its buffers: an encrypter that has sealed some
  -- chunks seals one more, and a decrypter under the same key and context, started with some id,
  -- has opened some chunks, whatever they were. Below 2 ^ 64 chunks on each side it opens that
  -- one only if the id is that of the encrypter's stream, it has opened just as many chunks as were
  -- sealed before, and the mark of the last chunk is the same.
  pub open_chunk-InOrder :
      (laws : Authentic x) (entropy : Entropy) (key base id : Bytes) (e : StreamEncrypter)
      (d : StreamDecrypter)
      → ((n : ℕ) (b : Bytes) → entropy n ≡ some b → length b ≡ n)
      → new_stream_encrypter entropy key base ≡ ok e
      → new_stream_decrypter key base id ≡ ok d
      → (before got : List (Bytes × Bool)) (cts ps : List Bytes) → length before < 2 ^ 64
      → length got < 2 ^ 64
      → (seal_all before e).0 ≡ ok cts
      → (open_all got d).0 ≡ ok ps
      → (p ct q : Bytes) (last last' : Bool) → (seal_chunk x p last (seal_all before e).1).0 ≡ ok ct
      → (open_chunk x ct last' (open_all got d).1).0 ≡ ok q
      → (id ≡ e.stream_id) × (length got ≡ length before) × (last' ≡ last)
  open_chunk-InOrder laws entropy key base id e d fills starts opens before got cts ps few little
        sealed opened p ct q last last' made read =
      let (sid, sized, is_e) = new_stream_encrypter-ok entropy key base e fills starts in
      let (long, is_d) = new_stream_decrypter-ok key base id d opens in
      let e0 : StreamEncrypter = record {
        key = key;
        base_ad = base;
        stream_id = sid;
        counter = 0;
      } in
      let d0 : StreamDecrypter = record {
        key = key;
        base_ad = base;
        stream_id = id;
        counter = 0;
        done = false;
      } in
      let at_e : (seal_all before e).1 ≡ sealing_at e0 (length before) =
        ap (λ s. (seal_all before s).1) is_e
        ∙ seal_all-counter before e0 cts (omega (arith, few))
            (ap (λ s. (seal_all before s).0) (sym is_e) ∙ sealed)
        ∙ ap (sealing_at e0) (omega arith) in
      let (done, at_d0) =
        open_all-counter got d0 ps (omega (arith, little))
          (ap (λ s. (open_all got s).0) (sym is_d) ∙ opened) in
      let at_d : (open_all got d).1 ≡ opening_at d0 (length got) done =
        ap (λ s. (open_all got s).1) is_d ∙ at_d0 ∙ ap (λ c. opening_at d0 c done) (omega arith) in
      let (ids, places, marks) =
        open_chunk-seal x laws key base sid id (length before) (length got) last last' done p ct q
          (sized ∙ sym long) few little (ap (λ s. (seal_chunk x p last s).0) (sym at_e) ∙ made)
          (ap (λ s. (open_chunk x ct last' s).0) (sym at_d) ∙ read) in
      (sym ids ∙ ap (λ s. s.stream_id) (sym is_e), sym places, sym marks)
