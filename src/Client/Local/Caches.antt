-- ===== src/Client/Local/Caches.antt =====
-- What localstore/secret_repo.go shows of the index and the payload of a secret: they are bound to the
-- version under which they were encrypted.
use yandex_go_final_diploma.Prelude.{
  ℕ, String, true, false, some, List, ◌∷◌, sym, ◌≡◌, refl, ◌∙◌, ap, inl, inr, [], ◌==◌, str_eq,
  eq_iff, if◌then◌else◌, find, find-updated, Bool-cases, arith,
}
use yandex_go_final_diploma.Exec.{ok}
use yandex_go_final_diploma.Server.Domain.{Bytes}
use yandex_go_final_diploma.Client.Local.{Local, LocalSecret}
use yandex_go_final_diploma.Client.Local.Tables.{find-update_same}
use yandex_go_final_diploma.Client.Local.Secrets.{
  with_id, with_version, find_secret, merged, stored, upsert_secret_row, set_secret_payload,
  set_secret_index, get_secret,
}

-- The row of a new version with nothing cached, and with what the server sent for this version.
abbrev pub bare : LocalSecret → LocalSecret
bare s = record s { enc_index = []; enc_payload = []; index_loaded = false; payload_loaded = false }

abbrev pub filled : LocalSecret → Bytes → Bytes → LocalSecret
filled s index payload = record s {
  enc_index = index;
  enc_payload = payload;
  index_loaded = true;
  payload_loaded = true;
}

-- The answers to requests for the index and the payload of a version, as they are cached.
abbrev pub late_answers : String → ℕ → Bytes → Bytes → Local → Local
late_answers id version index payload l =
    (set_secret_payload id payload version (set_secret_index id index version l).1).1

-- The row of the version that is there already keeps what is cached for it.
abbrev pub kept : LocalSecret → LocalSecret → LocalSecret
kept s old = record s {
  enc_index = old.enc_index;
  enc_payload = old.enc_payload;
  index_loaded = old.index_loaded;
  payload_loaded = old.payload_loaded;
}

find-id :
    (id : String) (xs : List LocalSecret) (a : LocalSecret)
    → find (with_id id) xs ≡ some a
    → a.id ≡ id
unfolding find
find-id id [] a h = ground (arith, h)
find-id id (x ∷ xs) a h = elim (Bool-cases (str_eq x.id id)) [
  | inl e ↦
      let same : x ≡ a = ground (arith, e, h) in ap (λ b. b.id) (sym same) ∙ (eq_iff x.id id).0 e
  | inr e ↦ find-id id xs a (ground (arith, e, h))
]

merged-cases :
    (s old : LocalSecret)
    → old.id ≡ s.id
    → merged s old ≡ (if old.version == s.version then kept s old else bare s)
unfolding merged
merged-cases s old same = elim (Bool-cases (old.version == s.version)) [
  | inl e ↦ rw (e, same) refl
  | inr e ↦ rw (e, same) refl
]

upsert-found :
    (s old : LocalSecret) (l : Local)
    → find_secret s.id l ≡ some old
    → find_secret s.id (upsert_secret_row s l).1
      ≡ some (if old.version == s.version then kept s old else bare s)
unfolding upsert_secret_row find_secret stored
upsert-found s old l h = rw h (
    find-update_same (with_id s.id) (merged s) (λ a e. unfold merged in e) l.secrets old h
    ∙ ap some (merged-cases s old (find-id s.id l.secrets old h)))

-- What the two answers make of a row: all of it, or nothing.
answered : ℕ → Bytes → Bytes → LocalSecret → LocalSecret
answered version index payload a = if a.version == version then filled a index payload else a

late_answers-found :
    (id : String) (version : ℕ) (index payload : Bytes) (l : Local) (a : LocalSecret)
    → find_secret id l ≡ some a
    → find_secret id (late_answers id version index payload l)
      ≡ some (answered version index payload a)
unfolding set_secret_payload set_secret_index find_secret answered
late_answers-found id version index payload l a h =
    let named : str_eq a.id id ≡ true = (eq_iff a.id id).1 (find-id id l.secrets a h) in
    find-updated (with_id id) (with_version id version)
      (λ s. record s { enc_payload = payload; payload_loaded = true }) (λ _. refl) _ _
      (find-updated (with_id id) (with_version id version)
        (λ s. record s { enc_index = index; index_loaded = true }) (λ _. refl) l.secrets a h)
    ∙ ap some (elim (Bool-cases (a.version == version)) [
      | inl e ↦ rw (named, e, named, e) refl
      | inr e ↦ rw (named, e, named, e) refl
    ])

-- Where a secret is cached, the row of the server is stored over it, and then the answers come to requests
-- for the index and the payload of some version: the row shows both answers if they are for the
-- version of the row, and otherwise what was cached before if that was for this version, and
-- nothing if it was not.
pub get_secret-Bound :
    (s old : LocalSecret) (version : ℕ) (index payload : Bytes) (l : Local)
    → find_secret s.id l ≡ some old
    → (get_secret s.id (late_answers s.id version index payload (upsert_secret_row s l).1)).0
      ≡ ok (
          some (
            if s.version == version
            then filled s index payload
            else (if old.version == s.version then kept s old else bare s)))
unfolding get_secret answered
get_secret-Bound s old version index payload l h = ap ok (
    late_answers-found s.id version index payload (upsert_secret_row s l).1 _
      (upsert-found s old l h)
    ∙ ap some
        (elim (Bool-cases (old.version == s.version)) [ inl e ↦ rw e refl | inr e ↦ rw e refl ]))
