-- ===== src/Auth/Users/Tests.antt =====
-- Runs of the administrators' calls, and the theorems at them.
use peanut_pos.Base.{◌≡◌, refl, false, some, [], ◌∷◌, arith}
use peanut_pos.Auth.Users
use peanut_pos.Auth.Users.{NewUser, create_user}
use peanut_pos.Auth.Users.Isolation
use peanut_pos.Auth.Users.Isolation.{users_of, run, run-others}
use peanut_pos.Auth.Tests.{crates, world}

abbrev office : Users.Env
office = record {
  claims = record { tenant_id = 8; roles = "admin" ∷ [] };
  tenant = some 8;
  new_id = 2;
  salt = 0;
  now = 50;
  read_fails = false;
  write_fails = false;
}

abbrev root : NewUser
root = record { name = "Bob"; email = "bob"; password = "secret"; role = "super_admin" }

run-others_example :
    users_of 7
      (run crates
        ((office, Isolation.reset 1 "longenough") ∷ (office, Isolation.create root) ∷ [])
        world).users
    ≡ users_of 7 world.users
run-others_example =
    run-others crates 7
      ((office, Isolation.reset 1 "longenough") ∷ (office, Isolation.create root) ∷ []) world
      ((λ e. absurd (omega arith), refl), ((λ e. absurd (omega arith), refl), tt))
