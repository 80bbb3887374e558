-- ===== src/Client/Secrets/Loading.antt =====
-- list_index.go and payloadCiphertext of get_payload.go: parts of secrets that are fetched later.
use yandex_go_final_diploma.Prelude.{
  ℕ, String, Bool, true, false, ◌||◌, Option, none, some, List, [], ◌∷◌, ◌≡◌, refl, sym, ap, ◌∙◌,
  inl, inr, str_eq, if◌then◌else◌, Bool-cases, arith,
}
use yandex_go_final_diploma.Exec.{Result, ok, pure, refuse_if, ◌>>=◌, ◌>>◌}
use yandex_go_final_diploma.Exec.Keeps.{
  Keeps, Preorder, pure-Keeps, raise-Keeps, bind-Keeps, bind-at, if-Keeps,
}
use yandex_go_final_diploma.Exec.Returns.{ok-injective}
use yandex_go_final_diploma.Server.Domain.{Bytes}
use yandex_go_final_diploma.Client.Errors.{ClientErr, empty_vault_id}
use yandex_go_final_diploma.Client.Local.{Local, LocalSecret}
use yandex_go_final_diploma.Client.Local.Secrets as Secrets
use yandex_go_final_diploma.Client.Local.Secrets.{find_secret, with_id, with_version}
use yandex_go_final_diploma.Client.Local.Tables.{str_eq-same, find-update_other}
use yandex_go_final_diploma.Client.Device.{
  SecretIndexItem, SecretPayloadItem, ServerClient, Device, Scenario, run_local, run_remote,
  access_token,
}
use yandex_go_final_diploma.Client.Device.Keeps.{
  OnLocal, OnLocal-Preorder, run_local-here, run_local-Keeps, run_remote-Keeps, access_token-Keeps,
}
use yandex_go_final_diploma.Client.Device.Returns.{run_local-ok}
use yandex_go_final_diploma.Client.Replay.{attempt}

module _ {S : Type 0} where
  -- The index of one item, with the cached row of its secret.
  unfoldable pub load_index : SecretIndexItem → Option LocalSecret → Scenario S (Unit {0})
  load_index it none = pure tt
  load_index it (some local) =
      if local.dirty || local.index_loaded
      then pure tt
      else run_local (Secrets.set_secret_index it.id it.enc_index it.version)

  unfoldable pub load_each_index : List SecretIndexItem → Scenario S (Unit {0})
  unfolding load_index
  load_each_index [] = pure tt
  load_each_index (it ∷ items) = do
    local ← run_local (Secrets.get_secret it.id)
    load_index it local
    load_each_index items

-- The row takes the fetched payload where it is known.
unfoldable pub cache_payload :
    {S : Type 0}
    → SecretPayloadItem
    → String
    → Result ClientErr (Option LocalSecret)
    → Scenario S (Unit {0})
cache_payload item id (ok (some _)) =
    run_local (Secrets.set_secret_payload id item.enc_payload item.version)
cache_payload item id _ = pure tt

module _ {S : Type 0} (server : ServerClient S) where
  unfoldable pub load_indexes : String → Scenario S (Unit {0})
  unfolding refuse_if access_token load_each_index
  load_indexes vault_id = do
    refuse_if (str_eq vault_id "") empty_vault_id
    token ← access_token
    items ← run_remote (server.list_secret_index token vault_id)
    load_each_index items

  unfoldable pub fetch_payload : String → String → Scenario S (Bytes × ℕ)
  unfolding attempt cache_payload
  fetch_payload token id = do
    item ← run_remote (server.get_secret_payload token id)
    known ← attempt (run_local (Secrets.get_secret id))
    cache_payload item id known
    pure (item.enc_payload, item.version)

  abbrev pub payload_or_fetch : String → String → Option LocalSecret → Scenario S (Bytes × ℕ)
  payload_or_fetch token id none = fetch_payload token id
  payload_or_fetch token id (some s) =
      if s.payload_loaded then pure (s.enc_payload, s.version) else fetch_payload token id

  unfoldable pub payload_ciphertext : String → String → Scenario S (Bytes × ℕ)
  unfolding fetch_payload
  payload_ciphertext token id = do
    local ← run_local (Secrets.get_secret id)
    payload_or_fetch token id local

abbrev dirty_row : Option LocalSecret → Bool
dirty_row none = false
dirty_row (some s) = s.dirty

-- The cached row has changes that the server does not know.
unfoldable pub is_dirty : String → Local → Bool
is_dirty id l = dirty_row (find_secret id l)

abbrev Spares : String → Local → Local → Type 0
Spares id l l' = is_dirty id l ≡ true → find_secret id l' ≡ find_secret id l

module _ (id : String) where
  Spares-Preorder : Preorder (Spares id)
  unfolding is_dirty
  Spares-Preorder = record {
    stays = λ l h. refl;
    chain = λ a b c ab bc h. bc (ap dirty_row (ab h) ∙ h) ∙ ab h;
  }

  other_row :
      (n : String) (v : ℕ) (a : LocalSecret)
      → str_eq n id ≡ false
      → with_version n v a ≡ true
      → str_eq a.id id ≡ false
  other_row n v a other same =
      ap (λ t. str_eq t id) (str_eq-same a.id n (ground (arith, same))) ∙ other

  index-Spares :
      (n : String) (enc_index : Bytes) (v : ℕ) (l : Local)
      → (is_dirty id l ≡ true → str_eq n id ≡ false)
      → Spares id l (Secrets.set_secret_index n enc_index v l).1
  unfolding Secrets.set_secret_index find_secret
  index-Spares n enc_index v l other dirty =
      find-update_other (with_id id) (with_version n v) _
        (λ a same. (other_row n v a (other dirty) same, other_row n v a (other dirty) same))
        l.secrets

  -- A row that is not dirty is not the one that is spared.
  apart_from :
      (n : String) (l : Local) (row : LocalSecret)
      → find_secret n l ≡ some row
      → row.dirty ≡ false
      → is_dirty id l ≡ true
      → str_eq n id ≡ false
  unfolding is_dirty
  apart_from n l row found clean dirty = elim (Bool-cases (str_eq n id)) [
    | inr other ↦ other
    | inl same ↦
        let here : find_secret id l ≡ some row =
          ap (λ t. find_secret t l) (sym (str_eq-same n id same)) ∙ found in
        ground (arith, clean, sym dirty ∙ ap dirty_row here)
  ]

  module _ {S : Type 0} where
    load_index-at :
        (it : SecretIndexItem) (row : Option LocalSecret) (d : Device S)
        → find_secret it.id d.local ≡ row
        → Spares id d.local (load_index it row d).1.local
    unfolding load_index
    load_index-at it none d found = λ h. refl
    load_index-at it (some row) d found = elim (Bool-cases (row.dirty || row.index_loaded)) [
      | inl skip ↦ rw skip (λ h. refl)
      | inr clean ↦ rw clean (
          run_local-here Spares-Preorder (Secrets.set_secret_index it.id it.enc_index it.version) d
            (index-Spares it.id it.enc_index it.version d.local
              (apart_from it.id d.local row found (ground (arith, clean)))))
    ]

    P : Preorder (OnLocal {S = S} (Spares id))
    P = OnLocal-Preorder Spares-Preorder

    reading-Spares :
        (n : String) → Keeps (OnLocal {S = S} (Spares id)) (run_local (Secrets.get_secret n))
    unfolding Secrets.get_secret
    reading-Spares n =
        run_local-Keeps Spares-Preorder (Secrets.get_secret n) (record { at = λ l h. refl })

    -- What was read is still the row.
    read_row :
        (n : String) (d : Device S) (row : Option LocalSecret)
        → (run_local (Secrets.get_secret n) d).0 ≡ ok row
        → find_secret n (run_local (Secrets.get_secret n) d).1.local ≡ row
    unfolding Secrets.get_secret
    read_row n d row h =
        let (value, same) = run_local-ok (Secrets.get_secret n) d row h in
        ap (find_secret n) same ∙ ok-injective value

    load_each-Spares :
        (items : List SecretIndexItem) → Keeps (OnLocal {S = S} (Spares id)) (load_each_index items)
    unfolding load_each_index
    load_each-Spares [] = pure-Keeps P tt
    load_each-Spares (it ∷ items) = record {
      at = λ d.
          bind-at P (run_local (Secrets.get_secret it.id)) _ d ((reading-Spares it.id).at d)
            λ row h.
              bind-at P (load_index it row) (λ _. load_each_index items) _
                (load_index-at it row (run_local (Secrets.get_secret it.id) d).1
                  (read_row it.id d row h))
                λ _ _. (load_each-Spares items).at _;
    }

    loading-Spares :
        (server : ServerClient S) (vault_id : String)
        → Keeps (OnLocal (Spares id)) (load_indexes server vault_id)
    unfolding load_indexes refuse_if
    loading-Spares server vault_id =
        bind-Keeps P _ _ (if-Keeps (str_eq vault_id "") _ _ (raise-Keeps P _) (pure-Keeps P tt))
          λ _. bind-Keeps P _ _ (access_token-Keeps Spares-Preorder) λ token.
            bind-Keeps P _ _
              (run_remote-Keeps Spares-Preorder (server.list_secret_index token vault_id))
              λ items. load_each-Spares items

  -- Whatever the server answers and whichever statements fail, loading the indexes of a vault leaves the
  -- cached row of a secret with changes of its own as it is.
  pub load_indexes-spares :
      {S : Type 0} (server : ServerClient S) (vault_id : String) (d : Device S)
      → is_dirty id d.local ≡ true
      → find_secret id (load_indexes server vault_id d).1.local ≡ find_secret id d.local
  load_indexes-spares server vault_id d dirty = (loading-Spares server vault_id).at d dirty
