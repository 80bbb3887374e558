-- ===== src/Client/Examples/Local.antt =====
-- The local store at concrete inputs.
use yandex_go_final_diploma.Prelude.{some, [], ◌∷◌, ◌≡◌, refl, find}
use yandex_go_final_diploma.Exec.{ok}
use yandex_go_final_diploma.Client.Local.{Local, LocalSecret}
use yandex_go_final_diploma.Client.Local.Secrets.{find_secret, get_secret, upsert_secret_row}
use yandex_go_final_diploma.Client.Local.Caches.{bare, filled, late_answers, get_secret-Bound}
use yandex_go_final_diploma.Client.Examples.Data.{tables, a_secret}

-- A device with both parts of "s1" at version 2 cached.
abbrev cached : LocalSecret
cached = filled (a_secret "s1" 2) (5 ∷ []) (6 ∷ [])

abbrev device : Local
device = record tables { secrets = cached ∷ a_secret "s2" 1 ∷ [] }

s1_cached : find_secret "s1" device ≡ some cached
unfolding find_secret find
s1_cached = refl

-- Version 3 comes, and behind it the answers for version 2.
get_secret-Bound_example :
    (get_secret "s1"
      (late_answers "s1" 2 (8 ∷ []) (9 ∷ []) (upsert_secret_row (a_secret "s1" 3) device).1)).0
    ≡ ok (some (bare (a_secret "s1" 3)))
get_secret-Bound_example =
    get_secret-Bound (a_secret "s1" 3) cached 2 (8 ∷ []) (9 ∷ []) device s1_cached
