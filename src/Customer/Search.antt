-- ===== src/Customer/Search.antt =====
-- services/customer-service/src/main.rs: `search_customers_impl`.
use Prim.Native.String.{◌++◌ as append}
use text.Mathlib.Text.{◌==◌ as str_eq}
use peanut_pos.Base.{
  String, Bool, ◌&&◌, ◌||◌, Option, none, some, List, [], ◌∷◌, ◌==◌, ltb, if◌then◌else◌,
}
use peanut_pos.Base.Api.{ApiError, internal, forbidden_missing_role, Result, err}
use peanut_pos.Base.Lists.{take}
use peanut_pos.Base.Table.{select}
use peanut_pos.Base.Tx.{Tx, ◌>>=◌, pure, raise}
use peanut_pos.Security.Policy.{customer_view, has_capability}
use peanut_pos.Crypto.{Bytes}
use peanut_pos.Customer.Update.{same_hash}
use peanut_pos.Customer.Store.{Customer, CustomerRow, Db, Env, searches, hash_email, hash_phone}
use peanut_pos.Customer.Keys.{Cache, no_keys, active, hydrate_customer_row, value}

-- ORDER BY created_at DESC.
unfoldable pub insert_newest : CustomerRow → List CustomerRow → List CustomerRow
insert_newest r [] = r ∷ []
insert_newest r (q ∷ qs) =
    if ltb q.created_at r.created_at then r ∷ q ∷ qs else q ∷ insert_newest r qs

unfoldable pub newest_first : List CustomerRow → List CustomerRow
unfolding insert_newest
newest_first [] = []
newest_first (r ∷ rs) = insert_newest r (newest_first rs)

unfoldable pub hydrate_customer_rows : Env → Db → List CustomerRow → Tx Cache (List Customer)
unfolding hydrate_customer_row
hydrate_customer_rows env db [] = pure []
hydrate_customer_rows env db (r ∷ rs) =
    hydrate_customer_row env db r >>= λ x. hydrate_customer_rows env db rs >>= λ xs. pure (x ∷ xs)

abbrev pub matches : Env → Bytes → String → CustomerRow → Bool
matches env key trimmed r =
    (r.tenant_id == env.sec.tenant_id)
    && (env.ilike r.name (if str_eq trimmed "" then "%" else append "%" (append trimmed "%"))
        || (same_hash r.email_hash (if str_eq trimmed "" then none else hash_email env key trimmed)
            || same_hash r.phone_hash
                (if str_eq trimmed "" then none else hash_phone env key trimmed)))

abbrev pub term_of : Env → Option String → String
term_of env q = env.trim (elim q [ none ↦ "" | some s ↦ s ])

unfoldable pub search_customers : Env → Option String → Db → Result ApiError (List Customer)
unfolding has_capability active hash_email hash_phone select newest_first take hydrate_customer_rows
search_customers env q db =
    if has_capability env.sec customer_view
    then value (
        (active env db >>= λ dek.
        if env.fails searches
        then raise internal
        else hydrate_customer_rows env db
            (take 20 (newest_first (select (matches env dek.key (term_of env q)) db.customers))))
          no_keys)
    else err (forbidden_missing_role "customer_view")
