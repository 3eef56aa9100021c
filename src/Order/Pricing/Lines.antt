-- ===== src/Order/Pricing/Lines.antt =====
-- The sums of a quote's lines.
use peanut_pos.Base.{
  ℕ, String, ◌≡◌, refl, subst, ◌+◌, ◌*◌, ◌≤◌, ◌-◌, ◌^◌, Bool, true, false, Bool-cases, inl, inr,
  ltb, Option, none, some, List, [], ◌∷◌, arith, if◌then◌else◌,
}
use peanut_pos.Base.Int.{ℤ, pos, negsuc, ◌≤ℤ◌, ◌+ℤ◌, ◌*ℤ◌, clamp64, saturating_add, saturating_mul}
use peanut_pos.Base.Lists.{All}
use peanut_pos.Base.Api.{Result, ok, err, ApiError, not_found, bad_request, internal}
use peanut_pos.Order.Pricing.{
  Env, Product, ItemInput, Sums, ComputeOrderRequest, ComputeOrderResponse, Wanted, wanted_sku,
  wanted_id, resolve_tax_rate_bps, and_then, last_where, row_of, wanted, add_line, add_lines,
  check_items, compute_with_db_inner, no_sums, fetch_fails, fetched, priced, response, is_taxable,
}

-- Sums of natural numbers, the taxable one at most the whole.
abbrev pub Sound : Sums → Type 0
Sound s =
    (a : ℕ) × (t : ℕ) × (s.subtotal ≡ pos a) × (s.taxable ≡ pos t) × (t ≤ a) × (t ≤ 2 ^ 63 - 1)

line-pos : (p q : ℕ) → (x : ℕ) × (saturating_mul (pos p) (pos q) ≡ pos x)
unfolding clamp64 ◌*ℤ◌
line-pos p q = elim (Bool-cases (ltb (2 ^ 63 - 1) (p * q))) [
  | inl e ↦ (2 ^ 63 - 1, ground arith)
  | inr e ↦ (p * q, ground arith)
]

line-natural : (p q : ℤ) → pos 0 ≤ℤ p → pos 0 ≤ℤ q → (x : ℕ) × (saturating_mul p q ≡ pos x)
line-natural (pos p) (pos q) hp hq = line-pos p q
line-natural (pos p) (negsuc q) hp hq = ground arith
line-natural (negsuc p) q hp hq = ground arith

abbrev capped : ℕ → ℕ
capped n = if ltb (2 ^ 63 - 1) n then 2 ^ 63 - 1 else n

sum-pos : (a b : ℕ) → saturating_add (pos a) (pos b) ≡ pos (capped (a + b))
unfolding clamp64 ◌+ℤ◌
sum-pos a b = ground arith

ok_inj :
    (a b : ComputeOrderResponse)
    → (◌≡◌ {A = Result ApiError ComputeOrderResponse} (ok a) (ok b))
    → b ≡ a
ok_inj a b h = ground arith

module _ (trim to_ascii_uppercase : String → String) (parse_i32 : String → Option ℤ) where
  add_line-Sound :
      (r : Product) (qty : ℤ) (s : Sums)
      → pos 0 ≤ℤ r.price_cents
      → pos 0 ≤ℤ qty
      → Sound s
      → Sound (add_line trim to_ascii_uppercase parse_i32 r qty s)
  unfolding add_line
  add_line-Sound r qty s p q (a, t, ea, et, le, small) =
      let (x, ex) = line-natural r.price_cents qty p q in
      elim (Bool-cases (is_taxable trim to_ascii_uppercase parse_i32 r.tax_code)) [
        | inl e ↦ (
          capped (a + x),
          capped (t + x),
          rw (ea, ex) (sum-pos a x),
          rw (e, et, ex) (sum-pos t x),
          ground arith,
          ground arith,
        )
        | inr e ↦
            (capped (a + x), t, rw (ea, ex) (sum-pos a x), rw (e, et) refl, ground arith, small)
      ]

  priced-row :
      (p : Product → Bool) (rows : List Product) (r : Product)
      → All (λ r. pos 0 ≤ℤ r.price_cents) rows
      → last_where trim to_ascii_uppercase parse_i32 p rows ≡ some r
      → pos 0 ≤ℤ r.price_cents
  unfolding last_where
  priced-row p [] r hs h = ground arith
  priced-row p (x ∷ rows) r (hx, hs) h = ground (arith, priced-row p rows r hs)

  row_of-price :
      (env : Env) (t : ℕ) (w : Wanted) (r : Product)
      → All (λ r. pos 0 ≤ℤ r.price_cents) env.products
      → row_of trim to_ascii_uppercase parse_i32 env t w ≡ some r
      → pos 0 ≤ℤ r.price_cents
  unfolding row_of
  row_of-price env t (wanted_sku s) r hs h = priced-row _ env.products r hs h
  row_of-price env t (wanted_id p) r hs h = priced-row _ env.products r hs h

  check_items-positive :
      (its : List ItemInput) (ws : List Wanted)
      → check_items trim to_ascii_uppercase parse_i32 its ≡ ok ws
      → All (λ it. pos 0 ≤ℤ it.quantity) its
  unfolding check_items
  check_items-positive [] ws h = tt
  check_items-positive (it ∷ its) ws h =
      let (ws', e) : (ws' : List Wanted) × (check_items trim to_ascii_uppercase parse_i32 its
            ≡ ok ws') =
        by_rest (check_items trim to_ascii_uppercase parse_i32 its) refl in
      (ground arith, check_items-positive its ws' e)
    where
      by_rest :
          (o : Result ApiError (List Wanted))
          → check_items trim to_ascii_uppercase parse_i32 its ≡ o
          → (ws' : List Wanted) × (check_items trim to_ascii_uppercase parse_i32 its ≡ ok ws')
      by_rest (ok ws') e = (ws', e)
      by_rest (err x) e = ground arith

  -- What a step of the second pass found and did.
  pub add_lines-step :
      (env : Env) (t : ℕ) (it : ItemInput) (its : List ItemInput) (s s' : Sums)
      → add_lines trim to_ascii_uppercase parse_i32 env t (it ∷ its) s ≡ ok s'
      → (w : Wanted) × (r : Product) × (row_of trim to_ascii_uppercase parse_i32 env t w ≡ some r)
        × (add_lines trim to_ascii_uppercase parse_i32 env t its
              (add_line trim to_ascii_uppercase parse_i32 r it.quantity s)
            ≡ ok s')
  unfolding add_lines
  add_lines-step env t it its s s' h = by_want (wanted trim to_ascii_uppercase parse_i32 it) h
    where
      by_row :
          (w : Wanted) (o : Option Product)
          → row_of trim to_ascii_uppercase parse_i32 env t w ≡ o
          → elim o [
            | none ↦ err (not_found "product_not_found")
            | some r ↦ elim r.active [
              | false ↦ err (bad_request "inactive_product")
              | true ↦
                  add_lines trim to_ascii_uppercase parse_i32 env t its
                    (add_line trim to_ascii_uppercase parse_i32 r it.quantity s)
            ]
          ]
            ≡ ok s'
          → (w : Wanted) × (r : Product) × (row_of trim to_ascii_uppercase parse_i32 env t w
              ≡ some r)
            × (add_lines trim to_ascii_uppercase parse_i32 env t its
                  (add_line trim to_ascii_uppercase parse_i32 r it.quantity s)
                ≡ ok s')
      by_row w none e k = ground arith
      by_row w (some r) e k = (w, r, e, ground arith)

      by_want :
          (o : Option Wanted)
          → elim (and_then (row_of trim to_ascii_uppercase parse_i32 env t) o) [
            | none ↦ err (not_found "product_not_found")
            | some r ↦ elim r.active [
              | false ↦ err (bad_request "inactive_product")
              | true ↦
                  add_lines trim to_ascii_uppercase parse_i32 env t its
                    (add_line trim to_ascii_uppercase parse_i32 r it.quantity s)
            ]
          ]
            ≡ ok s'
          → (w : Wanted) × (r : Product) × (row_of trim to_ascii_uppercase parse_i32 env t w
              ≡ some r)
            × (add_lines trim to_ascii_uppercase parse_i32 env t its
                  (add_line trim to_ascii_uppercase parse_i32 r it.quantity s)
                ≡ ok s')
      by_want none k = ground arith
      by_want (some w) k = by_row w (row_of trim to_ascii_uppercase parse_i32 env t w) refl k

  add_lines-Sound :
      (env : Env) (t : ℕ) (its : List ItemInput) (s s' : Sums)
      → All (λ r. pos 0 ≤ℤ r.price_cents) env.products
      → All (λ it. pos 0 ≤ℤ it.quantity) its
      → add_lines trim to_ascii_uppercase parse_i32 env t its s ≡ ok s'
      → Sound s
      → Sound s'
  unfolding add_lines
  add_lines-Sound env t [] s s' ps qs h k = let e : s ≡ s' = ground arith in subst Sound e k
  add_lines-Sound env t (it ∷ its) s s' ps (q, qs) h k =
      let (w, r, row, rest) = add_lines-step env t it its s s' h in
      add_lines-Sound env t its (add_line trim to_ascii_uppercase parse_i32 r it.quantity s) s' ps
        qs rest (add_line-Sound r it.quantity s (row_of-price env t w r ps row) q k)

  -- A quote that succeeds, its sums and rate.
  abbrev pub Quoted : Env → ℕ → ComputeOrderRequest → ComputeOrderResponse → Type 0
  Quoted env t req resp =
      (ws : List Wanted) × (s : Sums) × (check_items trim to_ascii_uppercase parse_i32 req.items
        ≡ ok ws)
      × (add_lines trim to_ascii_uppercase parse_i32 env t req.items
            (no_sums trim to_ascii_uppercase parse_i32)
          ≡ ok s)
      × (resp
          ≡ response s req.discount_percent_bp
              (resolve_tax_rate_bps trim to_ascii_uppercase parse_i32 env t req))

  fetched-sums :
      (env : Env) (t : ℕ) (req : ComputeOrderRequest) (resp : ComputeOrderResponse)
      (c : Result ApiError (List Wanted))
      → check_items trim to_ascii_uppercase parse_i32 req.items ≡ c
      → fetched trim to_ascii_uppercase parse_i32 env t req c ≡ ok resp
      → Quoted env t req resp
  unfolding fetched priced
  fetched-sums env t req resp (err x) e h = ground arith
  fetched-sums env t req resp (ok ws) e h =
      by_sums (fetch_fails trim to_ascii_uppercase parse_i32 env ws)
        (add_lines trim to_ascii_uppercase parse_i32 env t req.items
          (no_sums trim to_ascii_uppercase parse_i32))
        refl h
    where
      by_sums :
          (b : Bool) (o : Result ApiError Sums)
          → add_lines trim to_ascii_uppercase parse_i32 env t req.items
              (no_sums trim to_ascii_uppercase parse_i32)
            ≡ o
          → elim b [
            | true ↦ err internal
            | false ↦ priced trim to_ascii_uppercase parse_i32 env t req o
          ]
            ≡ ok resp
          → Quoted env t req resp
      by_sums true o k q = ground arith
      by_sums false (err x) k q = ground arith
      by_sums false (ok s) k q = (ws, s, e, k, ok_inj _ resp q)

  pub compute-sums :
      (env : Env) (t : ℕ) (req : ComputeOrderRequest) (resp : ComputeOrderResponse)
      → compute_with_db_inner trim to_ascii_uppercase parse_i32 env t req ≡ ok resp
      → Quoted env t req resp
  unfolding compute_with_db_inner
  compute-sums env t req resp h = by_items req.items h
    where
      by_items :
          (its : List ItemInput)
          → elim its [
            | [] ↦ err (bad_request "missing_items")
            | _ ∷ _ ↦
                fetched trim to_ascii_uppercase parse_i32 env t req
                  (check_items trim to_ascii_uppercase parse_i32 req.items)
          ]
            ≡ ok resp
          → Quoted env t req resp
      by_items [] k = ground arith
      by_items (x ∷ xs) k =
          fetched-sums env t req resp (check_items trim to_ascii_uppercase parse_i32 req.items) refl
            k

  -- The sums of a quote over a catalogue without negative prices.
  pub Quoted-Sound :
      (env : Env) (t : ℕ) (req : ComputeOrderRequest) (resp : ComputeOrderResponse)
      → All (λ r. pos 0 ≤ℤ r.price_cents) env.products
      → (q : Quoted env t req resp) → Sound q.1
  Quoted-Sound env t req resp ps (ws, s, checked, added, e) =
      add_lines-Sound env t req.items (no_sums trim to_ascii_uppercase parse_i32) s ps
        (check_items-positive req.items ws checked) added
        (0, 0, refl, refl, omega arith, omega arith)
