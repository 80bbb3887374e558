-- ===== src/Server/Secrets/Reading.antt =====
-- The payload of one secret (usecase/secret/get_payload.go), and who is handed it.
use yandex_go_final_diploma.Prelude.{String, false, ◌≡◌, inl, inr, arith, Option-cases}
use yandex_go_final_diploma.Exec.{ok, refuse_if, pure, ◌>>=◌, ◌>>◌}
use yandex_go_final_diploma.Server.Errors.{secret, SecretErr, invalid_uuid}
use yandex_go_final_diploma.Server.External.{External}
use yandex_go_final_diploma.Server.Store.{Db, SecretRow, World, Query, atomic, keep_on_error}
use yandex_go_final_diploma.Server.Store.Queries
use yandex_go_final_diploma.Server.Store.Queries.{find_secret, find_vault, vault_of_user}
use yandex_go_final_diploma.Server.Tx.{pool, q, alone}
use yandex_go_final_diploma.Server.Tx.Runs.{
  Serves, Serves-querier, Serves-guard, Serves-cases, hide_no_rows, swap_no_rows,
}
use yandex_go_final_diploma.Server.Tx.Serves.{Serves-map, Serves-hide_no_rows}
use yandex_go_final_diploma.Server.Repo.{parse_uuid_or}
use yandex_go_final_diploma.Server.Repo.Serves.{Serves-parse}
use yandex_go_final_diploma.Server.Repo.Secrets as Repo
use yandex_go_final_diploma.Server.Repo.Secrets.{not_found, payload_secret}
use yandex_go_final_diploma.Server.Secrets.{Payload, get_payload, is_empty_text}
use yandex_go_final_diploma.Server.Secrets.Found.{Found}

abbrev pub payload_of : External → SecretRow → Payload
payload_of x r = record {
  id = x.uuid_text r.id;
  type = r.type;
  version = r.version;
  enc_payload = r.enc_payload;
}

module _ (x : External) (user_id secret_id : String) where
  abbrev alone_payload : Query Payload
  alone_payload = do
    refuse_if (is_empty_text user_id) (secret SecretErr.empty_user_id)
    refuse_if (is_empty_text secret_id) (secret SecretErr.empty_secret_id)
    s ← Repo.get_payload x alone secret_id user_id
    pure (record { id = s.id; type = s.type; version = s.version; enc_payload = s.enc_payload })

  Serves-repo :
      Serves
        (Repo.get_payload x (q pool) secret_id user_id)
        (Repo.get_payload x alone secret_id user_id)
  unfolding Repo.get_payload
  Serves-repo = Serves-parse not_found _ _ x secret_id (λ sid.
      Serves-parse invalid_uuid _ _ x user_id (λ uid. Serves-map (payload_secret x) _ _ (
        Serves-hide_no_rows not_found _ _
          (Serves-querier pool _ (Queries.get_secret_payload sid uid)))))

  Serves-get_payload : Serves (get_payload x pool user_id secret_id) alone_payload
  unfolding get_payload
  Serves-get_payload = Serves-guard (is_empty_text user_id) (secret SecretErr.empty_user_id) _ _ (
      Serves-guard (is_empty_text secret_id) (secret SecretErr.empty_secret_id) _ _
        (Serves-map _ _ _ Serves-repo))

  -- Whom the database alone hands a payload.
  alone-Found :
      (d : Db) (p : Payload)
      → (alone_payload d).0 ≡ ok p
      → (f : Found x secret_id user_id d) × (f.row.deleted ≡ false) × (p ≡ payload_of x f.row)
  unfolding refuse_if Repo.get_payload parse_uuid_or hide_no_rows swap_no_rows atomic keep_on_error
      Queries.get_secret_payload find_secret find_vault vault_of_user payload_secret
  alone-Found d p h = elim (Option-cases (x.parse_uuid secret_id)) [
    | inl e ↦ ground (arith, e, h)
    | inr (sid, e) ↦ elim (Option-cases (x.parse_uuid user_id)) [
      | inl f ↦ ground (arith, e, f, h)
      | inr (uid, f) ↦ elim (Option-cases (find_secret sid d)) [
        | inl g ↦ ground (arith, e, f, g, h)
        | inr (r, g) ↦ elim (Option-cases (find_vault r.vault_id d)) [
          | inl v ↦ ground (arith, e, f, g, v, h)
          | inr (v, k) ↦ (
            record {
              sid = sid;
              uid = uid;
              row = r;
              vault = v;
              parsed = e;
              parsed_user = f;
              has_row = g;
              has_vault = k;
              owned = ground (arith, e, f, g, k, h);
            },
            ground (arith, e, f, g, k, h),
            ground (arith, e, f, g, k, h),
          )
        ]
      ]
    ]
  ]

  -- A payload is handed out to the user in whose vault the secret is and only while the secret is live,
  -- and it is that row's.
  pub get_payload-Found :
      (w : World) (p : Payload)
      → (get_payload x pool user_id secret_id w).0 ≡ ok p
      → (f : Found x secret_id user_id w.store) × (f.row.deleted ≡ false) × (p ≡ payload_of x f.row)
  get_payload-Found w p h = elim (Serves-cases Serves-get_payload w) [
    | inl (e, _, f, _) ↦ cc (f, h)
    | inr (same, _) ↦ alone-Found w.store p (cc (same, h))
  ]
