-- ===== src/Crypto/Aead/RoundTrip.antt =====
-- What `EncryptWithAD` returned, given to `DecryptWithAD`.
use yandex_go_final_diploma.Prelude.{
  ℕ, ◌+◌, false, Option, none, some, ◌++◌, ◌≡◌, refl, sym, ap, ◌∙◌, length, if◌then◌else◌, arith,
  Bool-cases, inl, inr,
}
use yandex_go_final_diploma.Exec.{ok, err}
use yandex_go_final_diploma.Exec.Returns.{ok-injective}
use yandex_go_final_diploma.Server.Domain.{Bytes}
use yandex_go_final_diploma.Crypto.Lists.{length-append, split_at-append}
use yandex_go_final_diploma.Crypto.Aead.{
  Aead, AeadLaws, Authentic, invalid_key_size, Entropy, bad_key, nonce_size, split_at, sealed_with,
  opened, open_parts, encrypt_with_ad, decrypt_with_ad,
}

module _ (x : Aead) (key p ad blob : Bytes) (entropy : Entropy)
    (fills : (n : ℕ) (b : Bytes) → entropy n ≡ some b → length b ≡ n) where
  -- The nonce that was drawn, in front of what was sealed.
  record Made : Type 0 where
    nonce : Bytes
    key_fits : bad_key key ≡ false
    drawn : length nonce ≡ nonce_size
    made : nonce ++ x.seal key nonce p ad ≡ blob

  made_of :
      (drawn : Option Bytes)
      → bad_key key ≡ false
      → entropy nonce_size ≡ drawn
      → sealed_with x key p ad drawn ≡ ok blob
      → Made
  made_of none k e h = ground (arith, h)
  made_of (some nonce) k e h = record {
    nonce = nonce;
    key_fits = k;
    drawn = fills nonce_size nonce e;
    made = ok-injective h;
  }

  made_by : encrypt_with_ad x entropy key p ad ≡ ok blob → Made
  unfolding encrypt_with_ad
  made_by h = elim (Bool-cases (bad_key key)) [
    | inl bad ↦ ground (arith, bad, h)
    | inr k ↦ made_of (entropy nonce_size) k refl (
        sym (
          ap (λ b. if b then err invalid_key_size else sealed_with x key p ad (entropy nonce_size))
            k)
        ∙ h)
  ]

  decrypts_as :
      (m : Made) (ad' : Bytes)
      → decrypt_with_ad x key blob ad'
        ≡ opened x (x.open_sealed key m.nonce (x.seal key m.nonce p ad) ad')
  unfolding decrypt_with_ad
  decrypts_as m ad' =
      ap
        (λ bs.
          if bad_key key
          then err invalid_key_size
          else open_parts x key ad' (split_at nonce_size bs))
        (sym m.made)
      ∙ rw (m.key_fits, split_at-append nonce_size m.nonce (x.seal key m.nonce p ad) m.drawn)

  -- With a cipher that opens what it sealed, and a source of randomness that fills its buffers: what was
  -- encrypted decrypts to the text under the same key and data, and is forty bytes longer than the text.
  pub decrypt-encrypt :
      AeadLaws x
      → encrypt_with_ad x entropy key p ad ≡ ok blob
      → (decrypt_with_ad x key blob ad ≡ ok p) × (length blob ≡ length p + 40)
  decrypt-encrypt laws h =
      let m = made_by h in
      (
        decrypts_as m ad ∙ ap (opened x) (laws.opens key m.nonce p ad),
        ap length (sym m.made)
            ∙ length-append m.nonce (x.seal key m.nonce p ad)
            ∙ omega (arith, m.drawn, laws.tag key m.nonce p ad),
      )

  opened-some : (o : Option Bytes) (q : Bytes) → opened x o ≡ ok q → o ≡ some q
  opened-some none q h = ground (arith, h)
  opened-some (some r) q h = ap some (ok-injective h)

  -- With an authentic cipher, and a source of randomness that fills its buffers: what was encrypted with
  -- some data decrypts with no other data.
  pub decrypt-bound :
      Authentic x
      → encrypt_with_ad x entropy key p ad ≡ ok blob
      → (ad' q : Bytes) → decrypt_with_ad x key blob ad' ≡ ok q
      → ad ≡ ad'
  decrypt-bound laws h ad' q d =
      let m = made_by h in
      (laws.authentic key m.nonce p ad m.nonce ad' q
        (opened-some _ q (sym (decrypts_as m ad') ∙ d))).1
