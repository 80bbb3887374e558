-- ===== src/Server/Vaults/Refines.antt =====
-- The scenarios on vaults against their specification.
use yandex_go_final_diploma.Prelude.{
  String, false, arith, List, [], ◌∷◌, map, select, ◌≡◌, refl, Option-cases, inl, inr,
}
use yandex_go_final_diploma.Exec.{refuse_if, pure, ◌>>=◌, ◌>>◌}
use yandex_go_final_diploma.Server.Domain.{Vault}
use yandex_go_final_diploma.Server.Errors.{
  vault, VaultErr, empty_vault_key, empty_enc_name, invalid_uuid,
}
use yandex_go_final_diploma.Server.External.{External}
use yandex_go_final_diploma.Server.Store.{VaultRow, atomic, keep_on_error}
use yandex_go_final_diploma.Server.Store.Queries.{order_by}
use yandex_go_final_diploma.Server.Store.Accounts
use yandex_go_final_diploma.Server.Store.Accounts.{owned_vault}
use yandex_go_final_diploma.Server.Tx.{pool, q, alone}
use yandex_go_final_diploma.Server.Tx.Runs.{Serves, Serves-querier, Serves-guard, Serves-as}
use yandex_go_final_diploma.Server.Tx.Serves.{Serves-map}
use yandex_go_final_diploma.Server.Repo.{parse_uuid_or}
use yandex_go_final_diploma.Server.Repo.Serves.{Serves-parse}
use yandex_go_final_diploma.Server.Repo.Vaults as Repo
use yandex_go_final_diploma.Server.Repo.Vaults.{Version, to_version, to_vault}
use yandex_go_final_diploma.Server.Secrets.{is_empty, is_empty_text}
use yandex_go_final_diploma.Server.Secrets.Spec.{unless}
use yandex_go_final_diploma.Server.Vaults.{
  CreateParams, Tier1, create_vault, check_freshness, list_vaults,
}
use yandex_go_final_diploma.Server.Vaults.Spec

module _ (x : External) where
  Serves-freshness :
      (user_id : String)
      → Serves (Repo.check_freshness x (q pool) user_id) (Repo.check_freshness x alone user_id)
  unfolding Repo.check_freshness
  Serves-freshness user_id = Serves-parse invalid_uuid _ _ x user_id (λ uid.
      Serves-map (map (to_version x)) _ _
        (Serves-querier pool _ (Accounts.check_vault_freshness uid)))

  -- The versions that a user is shown are those of the specification, or a fault of the environment is
  -- reported; nothing changes.
  pub Serves-check_freshness :
      (user_id : String) → Serves (check_freshness x pool user_id) (Spec.check_freshness x user_id)
  unfolding check_freshness
  Serves-check_freshness user_id =
      Serves-as
        {plain = do
          refuse_if (is_empty_text user_id) (vault VaultErr.empty_user_id)
          Repo.check_freshness x alone user_id}
        (Serves-guard (is_empty_text user_id) (vault VaultErr.empty_user_id) _ _
          (Serves-freshness user_id))
        (λ d.
          unfold refuse_if unless Spec.on_user Spec.check_freshness Repo.check_freshness
            parse_uuid_or atomic keep_on_error Accounts.check_vault_freshness in
          ground arith)

  Serves-list :
      (user_id : String)
      → Serves (Repo.list_by_user x (q pool) user_id) (Repo.list_by_user x alone user_id)
  unfolding Repo.list_by_user
  Serves-list user_id = Serves-parse invalid_uuid _ _ x user_id (λ uid.
      Serves-map (map (to_vault x user_id)) _ _
        (Serves-querier pool _ (Accounts.list_vaults_by_user uid)))

  Serves-create : (v : Vault) → Serves (Repo.create x (q pool) v) (Repo.create x alone v)
  unfolding Repo.create
  Serves-create v = Serves-parse invalid_uuid _ _ x v.user_id (λ uid.
      Serves-map (λ row. record v { id = x.uuid_text row.id; version = row.version }) _ _
        (Serves-querier pool _ (Accounts.create_vault x uid v.wrapped_vault_key v.enc_name)))

  -- What the repository stores for the parameters of a creation.
  abbrev requested : CreateParams → Vault
  requested p = record {
    id = "";
    user_id = p.user_id;
    wrapped_vault_key = p.wrapped_vault_key;
    enc_name = p.enc_name;
    version = 0;
    deleted = false;
  }

  -- A creation of a vault, whatever the environment does, makes the decision of the specification, or
  -- reports a fault of the environment and has changed nothing; in a calm environment it makes the
  -- decision.
  pub Serves-create_vault :
      (p : CreateParams) → Serves (create_vault x pool p) (Spec.create_vault x p)
  unfolding create_vault
  Serves-create_vault p =
      Serves-as
        {plain = do
          refuse_if (is_empty_text p.user_id) (vault VaultErr.empty_user_id)
          refuse_if (is_empty p.wrapped_vault_key) (vault empty_vault_key)
          refuse_if (is_empty p.enc_name) (vault empty_enc_name)
          created ← Repo.create x alone (requested p)
          pure created.id}
        (Serves-guard (is_empty_text p.user_id) (vault VaultErr.empty_user_id) _ _ (
          Serves-guard (is_empty p.wrapped_vault_key) (vault empty_vault_key) _ _ (
            Serves-guard (is_empty p.enc_name) (vault empty_enc_name) _ _
              (Serves-map (λ v. v.id) _ _ (Serves-create (requested p))))))
        (λ d.
          unfold refuse_if unless Spec.on_user Spec.create_vault Spec.insert_vault Spec.new_vault
            Repo.create parse_uuid_or atomic keep_on_error Accounts.create_vault in
          ground arith)

  -- `ListVaults` reads the fields that `ListByUser` has filled in.
  abbrev tier_of : Vault → Tier1
  tier_of v = record {
    id = v.id;
    wrapped_vault_key = v.wrapped_vault_key;
    enc_name = v.enc_name;
    version = v.version;
  }

  map-tier_of :
      (user_id : String) (rows : List VaultRow)
      → map tier_of (map (to_vault x user_id) rows) ≡ map (Spec.to_tier x) rows
  unfolding to_vault Spec.to_tier
  map-tier_of user_id [] = refl
  map-tier_of user_id (v ∷ rows) = rw (map-tier_of user_id rows)

  -- The list of a user's vaults is that of the specification, or a fault of the environment is reported;
  -- nothing changes.
  pub Serves-list_vaults :
      (user_id : String) → Serves (list_vaults x pool user_id) (Spec.list_vaults x user_id)
  unfolding list_vaults
  Serves-list_vaults user_id =
      Serves-as
        {plain = do
          refuse_if (is_empty_text user_id) (vault VaultErr.empty_user_id)
          vaults ← Repo.list_by_user x alone user_id
          pure (map tier_of vaults)}
        (Serves-guard (is_empty_text user_id) (vault VaultErr.empty_user_id) _ _
          (Serves-map (map tier_of) _ _ (Serves-list user_id)))
        (λ d. elim (Option-cases (x.parse_uuid user_id)) [
          | inl e ↦
              unfold refuse_if unless Spec.on_user Spec.list_vaults Repo.list_by_user
                parse_uuid_or in
              ground (arith, e)
          | inr (uid, e) ↦
              unfold refuse_if unless Spec.on_user Spec.list_vaults Repo.list_by_user parse_uuid_or
                atomic keep_on_error Accounts.list_vaults_by_user in
              ground (
                arith,
                e,
                map-tier_of user_id
                    (order_by (λ v. v.created_at) (select (owned_vault uid) d.vaults)),
              )
        ])

-- A creation of a vault, whatever the environment does, makes the decision of the specification, or
-- reports a fault of the environment and has changed nothing; so do the list of a user's vaults and
-- their versions, which change nothing in any case; in a calm environment the decisions are made.
pub calls-Serve :
    (x : External) (p : CreateParams) (user_id : String)
    → Serves (create_vault x pool p) (Spec.create_vault x p)
      × Serves (list_vaults x pool user_id) (Spec.list_vaults x user_id)
      × Serves (check_freshness x pool user_id) (Spec.check_freshness x user_id)
calls-Serve x p user_id =
    (Serves-create_vault x p, Serves-list_vaults x user_id, Serves-check_freshness x user_id)
