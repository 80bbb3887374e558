-- ===== src/Server/Secrets/Stale.antt =====
-- Edits and deletions from a base version, behind an accepted edit from that version.
use yandex_go_final_diploma.Prelude.{ℕ, ◌+◌, ◌<◌, String, ◌≡◌, ◌≢◌, refl, ◌∙◌, arith, some, List}
use yandex_go_final_diploma.Exec.{ok}
use yandex_go_final_diploma.Server.External.{External, UuidLaws}
use yandex_go_final_diploma.Server.Store.{Db, SecretRow, World, Event}
use yandex_go_final_diploma.Server.Store.Queries.{find_secret}
use yandex_go_final_diploma.Server.Tx.{pool}
use yandex_go_final_diploma.Server.Secrets.{
  UpdateParams, DeleteParams, update_secret, delete_secret,
}
use yandex_go_final_diploma.Server.Secrets.Spec.{edited, removed}
use yandex_go_final_diploma.Server.Secrets.Locking.{
  Replaced, update_secret-Replaced, delete_secret-Replaced,
}
use yandex_go_final_diploma.Server.Secrets.History.{Call, after_all, Grows}
use yandex_go_final_diploma.Server.Secrets.Growth.{after_all-Grows}

module _ (x : External) where
  -- A secret that was replaced at a base version is above that version from then on.
  above_base :
      {secret_id user_id : String} {base n : ℕ} {d d' : Db} (change : SecretRow → SecretRow)
      → ((r : SecretRow) → (change r).version ≡ r.version + 1)
      → Replaced x secret_id user_id base change n d d'
      → (e : Db) → Grows d' e
      → (sid : ℕ) × (r : SecretRow) × (x.parse_uuid secret_id ≡ some sid)
        × (find_secret sid e ≡ some r)
        × (base < r.version)
  above_base change counts (f, live, at_base, n_is, wrote) e grows =
      let later = grows.secrets f.sid _ wrote.becomes in
      (f.sid, later.0, f.parsed, later.1, omega (arith, later.2.version, counts f.row, at_base))

  -- So no later write from that base is accepted.
  never_again :
      {secret_id user_id : String} {base n : ℕ} {e e' : Db} (change : SecretRow → SecretRow)
      (sid : ℕ) (r : SecretRow)
      → x.parse_uuid secret_id ≡ some sid
      → find_secret sid e ≡ some r
      → base < r.version
      → ¬ (Replaced x secret_id user_id base change n e e')
  never_again change sid r parsed has above (f, live, at_base, n_is, wrote) =
      let same_id : f.sid ≡ sid = cc (f.parsed, parsed) in
      let same : f.row.version ≡ r.version = cc (f.has_row, has, same_id) in
      omega (arith, above, at_base, same)

module _ (x : External) (laws : UuidLaws x) where
  -- Once an edit from a base version is accepted, an edit of the same secret from that base version is
  -- never accepted again, whatever calls come in between and however the environment fails: of two
  -- devices that edit from one version, one at most succeeds.
  pub stale_edit-refused :
      (p : UpdateParams) (w : World) (n : ℕ) (calls : List (Call × ℕ × List Event))
      (p' : UpdateParams) (events : List Event) (m : ℕ)
      → (update_secret x pool p w).0 ≡ ok n
      → x.parse_uuid p'.secret_id ≡ x.parse_uuid p.secret_id
      → p'.base_version ≡ p.base_version
      → (update_secret x pool p' (record {
        store = after_all x calls (update_secret x pool p w).1.store;
        events = events;
      })).0
        ≢ ok m
  stale_edit-refused p w n calls p' events m accepted same_id same_base again =
      let later = after_all-Grows x laws calls (update_secret x pool p w).1.store in
      let (sid, r, parsed, has, above) =
        above_base x (edited p) (λ s. refl) (update_secret-Replaced x laws p w n accepted) _
          later in
      never_again x (edited p') sid r (same_id ∙ parsed) has (omega (arith, above, same_base))
        (update_secret-Replaced x laws p' _ m again)

  -- Once an edit from a base version is accepted, a deletion of the same secret from that base version
  -- is never accepted, whatever calls come in between and however the environment fails: a device that
  -- has not seen the edit cannot delete what was edited.
  pub stale_deletion-refused :
      (p : UpdateParams) (w : World) (n : ℕ) (calls : List (Call × ℕ × List Event))
      (p' : DeleteParams) (events : List Event) (m : ℕ)
      → (update_secret x pool p w).0 ≡ ok n
      → x.parse_uuid p'.secret_id ≡ x.parse_uuid p.secret_id
      → p'.base_version ≡ p.base_version
      → (delete_secret x pool p' (record {
        store = after_all x calls (update_secret x pool p w).1.store;
        events = events;
      })).0
        ≢ ok m
  stale_deletion-refused p w n calls p' events m accepted same_id same_base again =
      let later = after_all-Grows x laws calls (update_secret x pool p w).1.store in
      let (sid, r, parsed, has, above) =
        above_base x (edited p) (λ s. refl) (update_secret-Replaced x laws p w n accepted) _
          later in
      never_again x removed sid r (same_id ∙ parsed) has (omega (arith, above, same_base))
        (delete_secret-Replaced x laws p' _ m again)
