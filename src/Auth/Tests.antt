-- ===== src/Auth/Tests.antt =====
-- A tab that signs in, changes its password and signs out.
use karna.Common.{◌≡◌, refl, true, false, none, some, List, [], ◌∷◌}
use karna.Text.{codes}
use karna.Auth.{Event, boot, login, change_password, handle_all, opened}
use karna.Auth.SignedIn.{has_token, has_token-handle_all}

abbrev events : List Event
events =
    boot true (some true) none
    ∷ login (some (record { token = codes "t1"; email = codes "a@b.c" }))
    ∷ change_password (some (codes "t2"))
    ∷ []

has_token-handle_all_example :
    has_token (handle_all false events (opened false (some (codes "t0")))).session ≡ true
has_token-handle_all_example = has_token-handle_all false (some (codes "t0")) events refl
