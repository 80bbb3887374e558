-- ===== src/Client/Local/Keys.antt =====
-- The ids of the queue are those of its primary key: each is there once.
use yandex_go_final_diploma.Prelude.{
  ℕ, Bool, true, false, some, List, [], ◌∷◌, ◌≡◌, inl, inr, arith, ◌==◌, find, All, Bool-cases,
}
use yandex_go_final_diploma.Client.Local.{OutboxEntry}
use yandex_go_final_diploma.Client.Local.Unique.{Unique, All-map}
use yandex_go_final_diploma.Client.Local.Outbox.{with_entry_id}

abbrev pub same_entry : OutboxEntry → OutboxEntry → Bool
same_entry y x = y.id == x.id

abbrev pub Keyed : List OutboxEntry → Type 0
Keyed = Unique same_entry

-- The entries with the id of e are e.
abbrev pub OnlyOne : OutboxEntry → OutboxEntry → Type 0
OnlyOne e x = (x.id == e.id) ≡ true → x ≡ e

elsewhere : (e x : OutboxEntry) (n : ℕ) → (n == e.id) ≡ true → (x.id == n) ≡ false → OnlyOne e x
elsewhere e x n same other h = ground (arith, same, other, h)

pub Keyed-OnlyOne :
    (e : OutboxEntry) (xs : List OutboxEntry)
    → Keyed xs
    → find (with_entry_id e.id) xs ≡ some e
    → All (OnlyOne e) xs
unfolding find
Keyed-OnlyOne e [] k h = tt
Keyed-OnlyOne e (x ∷ xs) k h = elim (Bool-cases (x.id == e.id)) [
  | inl same ↦ ((λ _. ground (arith, same, h)), All-map (λ y. elsewhere e y x.id same) xs k.0)
  | inr other ↦
      ((λ same. ground (arith, same, other)), Keyed-OnlyOne e xs k.1 (ground (arith, other, h)))
]
