-- ===== src/Server/Vaults/Freshness.antt =====
-- The versions that CheckFreshness shows, behind a history of calls on secrets.
use yandex_go_final_diploma.Prelude.{
  ℕ, ◌<◌, String, true, ◌≡◌, ◌≢◌, inl, inr, none, some, List, arith, select, map,
}
use mathlib.Core.List.{Memᴰ}
use yandex_go_final_diploma.Exec.{ok}
use yandex_go_final_diploma.Server.External.{External, UuidLaws}
use yandex_go_final_diploma.Server.Store.{Db, VaultRow, SecretRow, Event}
use yandex_go_final_diploma.Server.Store.Queries.{find_secret, find_vault, order_by}
use yandex_go_final_diploma.Server.Store.Accounts.{owned_vault}
use yandex_go_final_diploma.Server.Store.Lookups.{find_vault-id}
use yandex_go_final_diploma.Server.Store.Rows.{Memᴰ-find, Memᴰ-select, Memᴰ-order_by, Memᴰ-map}
use yandex_go_final_diploma.Server.Tx.{pool}
use yandex_go_final_diploma.Server.Tx.Runs.{Serves-cases}
use yandex_go_final_diploma.Server.Repo.Vaults.{Version, to_version}
use yandex_go_final_diploma.Server.Secrets.Spec.{unless}
use yandex_go_final_diploma.Server.Secrets.History.{Call, after_all, Counted, Grows}
use yandex_go_final_diploma.Server.Secrets.Growth.{after_all-Grows}
use yandex_go_final_diploma.Server.Vaults.{check_freshness}
use yandex_go_final_diploma.Server.Vaults.Spec
use yandex_go_final_diploma.Server.Vaults.Refines.{Serves-check_freshness}

-- Among the versions is one of this vault that is above the given one.
abbrev pub Shows : External → ℕ → ℕ → List Version → Type 0
Shows x vid old versions =
    (n : ℕ) × Memᴰ {A = Version} (record { id = x.uuid_text vid; version = n }) versions × (old < n)

module _ (x : External) (user_id : String) (uid : ℕ)
    (parsed : x.parse_uuid user_id ≡ some uid) where
  -- The versions that are shown, as the rows have them.
  freshness_rows :
      (d : Db) (versions : List Version)
      → (Spec.check_freshness x user_id d).0 ≡ ok versions
      → versions ≡ map (to_version x) (order_by (λ v. v.id) (select (owned_vault uid) d.vaults))
  unfolding Spec.check_freshness unless Spec.on_user
  freshness_rows d versions shown = ground (arith, parsed, shown)

  freshness-Memᴰ :
      (d : Db) (versions : List Version) (vid : ℕ) (v : VaultRow)
      → (Spec.check_freshness x user_id d).0 ≡ ok versions
      → find_vault vid d ≡ some v
      → owned_vault uid v ≡ true
      → Memᴰ {A = Version} (record { id = x.uuid_text vid; version = v.version }) versions
  unfolding find_vault to_version
  freshness-Memᴰ d versions vid v shown has owned = rw (freshness_rows d versions shown) (
      rw (← find_vault-id vid d v has) (
        Memᴰ-map (to_version x) v _ (
          Memᴰ-order_by (λ u. u.id) v _
            (Memᴰ-select (owned_vault uid) v _ owned (Memᴰ-find _ v d.vaults has)))))

  Counted-Shows :
      (d d' : Db) (vid : ℕ) (v : VaultRow) (versions : List Version) (events : List Event)
      → Grows d d'
      → Counted d d' vid
      → find_vault vid d ≡ some v
      → owned_vault uid v ≡ true
      → (check_freshness x pool user_id (record { store = d'; events = events })).0 ≡ ok versions
      → Shows x vid v.version versions
  Counted-Shows d d' vid v versions events grows (v', has', above) has owned shown =
      let later = grows.vaults vid v has in
      let same : later.0 ≡ v' = cc (later.1, has') in
      let still_owned : owned_vault uid v' ≡ true = ground (arith, same, later.3, later.4, owned) in
      let answer : (Spec.check_freshness x user_id d').0 ≡ ok versions =
        elim (Serves-cases (Serves-check_freshness x user_id)
          (record { store = d'; events = events })) [
            | inl (e, _, f, _) ↦ cc (f, shown)
            | inr (s, _) ↦ cc (s, shown)
          ] in
      (v'.version, freshness-Memᴰ d' versions vid v' answer has' still_owned, above v has)

module _ (x : External) (laws : UuidLaws x) where
  -- When a secret in one of the user's vaults has changed over a history of calls, then the versions
  -- that the user is shown afterwards have that vault above its earlier version.
  pub freshness-Shows_changed :
      (user_id : String) (uid : ℕ) (calls : List (Call × ℕ × List Event)) (d : Db)
      (events : List Event) (j : ℕ) (r r' : SecretRow) (v : VaultRow) (versions : List Version)
      → x.parse_uuid user_id ≡ some uid
      → find_vault r.vault_id d ≡ some v
      → owned_vault uid v ≡ true
      → find_secret j d ≡ some r
      → find_secret j (after_all x calls d) ≡ some r'
      → r' ≢ r
      → (check_freshness x pool user_id (record { store = after_all x calls d; events = events })).0
        ≡ ok versions
      → Shows x r.vault_id v.version versions
  freshness-Shows_changed user_id uid calls d events j r r' v versions parsed has owned was is
        changed shown =
      let grows = after_all-Grows x laws calls d in
      let kept = grows.secrets j r was in
      elim kept.2.seen [
        | inl same ↦ elim (changed (cc (same, kept.1, is))) [ ]
        | inr counted ↦
            Counted-Shows x user_id uid parsed d _ r.vault_id v versions events grows counted has
              owned shown
      ]

  -- When a secret in one of the user's vaults was not there before a history of calls and is there after
  -- it, then the versions that the user is shown afterwards have that vault above its earlier version.
  pub freshness-Shows_created :
      (user_id : String) (uid : ℕ) (calls : List (Call × ℕ × List Event)) (d : Db)
      (events : List Event) (j : ℕ) (r : SecretRow) (v : VaultRow) (versions : List Version)
      → x.parse_uuid user_id ≡ some uid
      → find_vault r.vault_id d ≡ some v
      → owned_vault uid v ≡ true
      → find_secret j d ≡ none
      → find_secret j (after_all x calls d) ≡ some r
      → (check_freshness x pool user_id (record { store = after_all x calls d; events = events })).0
        ≡ ok versions
      → Shows x r.vault_id v.version versions
  freshness-Shows_created user_id uid calls d events j r v versions parsed has owned absent is
        shown =
      let grows = after_all-Grows x laws calls d in
      Counted-Shows x user_id uid parsed d _ r.vault_id v versions events grows
        (grows.created j r absent is) has owned shown
