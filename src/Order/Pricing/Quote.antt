-- ===== src/Order/Pricing/Quote.antt =====
-- A quoted cart: its lines and its totals.
use mathlib.Core.List.{append-nil, append_assoc}
use peanut_pos.Base.{
  ℕ, String, ◌≡◌, refl, sym, ap, subst, ◌∙◌, ◌≤◌, Option, List, [], ◌∷◌, ◌++◌, map, arith,
}
use peanut_pos.Base.Int.{ℤ, pos, ◌≤ℤ◌, saturating_mul}
use peanut_pos.Base.Lists.{All, map-append}
use peanut_pos.Base.Api.{ok}
use peanut_pos.Order.Pricing.{
  Env, Product, ItemInput, Sums, ComputeOrderRequest, ComputeOrderResponse, resolve_tax_rate_bps,
  add_line, add_lines, compute_with_db_inner, no_sums, response,
}
use peanut_pos.Order.Pricing.Bounds.{Fair, response-Fair}
use peanut_pos.Order.Pricing.Rate.{IsRate, resolve_tax_rate_bps-IsRate}
use peanut_pos.Order.Pricing.Lines.{Sound, add_lines-step, compute-sums, Quoted-Sound}

module _ (trim to_ascii_uppercase : String → String) (parse_i32 : String → Option ℤ) where
  add_line-quantity :
      (r : Product) (qty : ℤ) (s : Sums)
      → map (λ i. i.qty) (add_line trim to_ascii_uppercase parse_i32 r qty s).items
        ≡ map (λ i. i.qty) s.items ++ qty ∷ []
  unfolding add_line
  add_line-quantity r qty s =
      map-append (λ i. i.qty) s.items
        (record {
          product_id = r.id;
          qty = qty;
          unit_price_cents = r.price_cents;
          line_subtotal_cents = saturating_mul r.price_cents qty;
        }
          ∷ [])

  -- The lines of the sums, in the order of the items and with their quantities.
  add_lines-quantities :
      (env : Env) (t : ℕ) (its : List ItemInput) (s s' : Sums)
      → add_lines trim to_ascii_uppercase parse_i32 env t its s ≡ ok s'
      → map (λ i. i.qty) s'.items ≡ map (λ i. i.qty) s.items ++ map (λ it. it.quantity) its
  unfolding add_lines
  add_lines-quantities env t [] s s' h =
      let e : s ≡ s' = ground arith in
      ap (λ x. map (λ i. i.qty) x.items) (sym e) ∙ sym (append-nil (map (λ i. i.qty) s.items))
  add_lines-quantities env t (it ∷ its) s s' h =
      let (w, r, row, rest) =
        add_lines-step trim to_ascii_uppercase parse_i32 env t it its s s' h in
      let s2 = add_line trim to_ascii_uppercase parse_i32 r it.quantity s in
      add_lines-quantities env t its s2 s' rest
      ∙ ap (λ xs. xs ++ map (λ i. i.quantity) its) (add_line-quantity r it.quantity s)
      ∙ append_assoc (map (λ i. i.qty) s.items) (it.quantity ∷ []) (map (λ i. i.quantity) its)

  fits :
      (s : Sums)
      → Sound s
      → s.subtotal ≤ℤ pos 3000000000
      → (rate : ℤ) → IsRate rate
      → (bp : Option ℤ) → Fair (response s bp rate)
  fits s (a, t, ea, et, le, small) cap rate (b, eb, lb) bp =
      let l : a ≤ 3000000000 = by_parts ea cap in
      let shape : record { items = s.items; subtotal = pos a; taxable = pos t } ≡ s =
        rw (← ea, ← et) refl in
      subst (λ x. Fair (response x bp rate)) shape (rw eb (response-Fair s.items a t bp b le l lb))
    where
      by_parts : s.subtotal ≡ pos a → s.subtotal ≤ℤ pos 3000000000 → a ≤ 3000000000
      by_parts e h = ground arith

  -- Where no price of the catalogue is negative and the subtotal is at most 30 million dollars, the
  -- totals that a successful quote reports are fair: the discount is between nothing and the subtotal,
  -- the tax between nothing and the subtotal, and the total is the subtotal less the discount plus the
  -- tax. The discount asked for, the rates and the quantities are arbitrary.
  pub compute_with_db_inner-Fair :
      (env : Env) (t : ℕ) (req : ComputeOrderRequest) (resp : ComputeOrderResponse)
      → All (λ r. pos 0 ≤ℤ r.price_cents) env.products
      → compute_with_db_inner trim to_ascii_uppercase parse_i32 env t req ≡ ok resp
      → resp.subtotal_cents ≤ℤ pos 3000000000
      → Fair resp
  unfolding response
  compute_with_db_inner-Fair env t req resp ps h cap =
      let (ws, s, checked, added, e) =
        compute-sums trim to_ascii_uppercase parse_i32 env t req resp h in
      let sound =
        Quoted-Sound trim to_ascii_uppercase parse_i32 env t req resp ps
          (ws, s, checked, added, e) in
      subst Fair (sym e) (
        fits s sound (subst (λ x. x.subtotal_cents ≤ℤ pos 3000000000) e cap)
          (resolve_tax_rate_bps trim to_ascii_uppercase parse_i32 env t req)
          (resolve_tax_rate_bps-IsRate trim to_ascii_uppercase parse_i32 env t req)
          req.discount_percent_bp)

  -- A quote that succeeds has a line for each requested item, in the same order and with the same
  -- quantity.
  compute_with_db_inner-quantities :
      (env : Env) (t : ℕ) (req : ComputeOrderRequest) (resp : ComputeOrderResponse)
      → compute_with_db_inner trim to_ascii_uppercase parse_i32 env t req ≡ ok resp
      → map (λ i. i.qty) resp.items ≡ map (λ it. it.quantity) req.items
  unfolding response
  compute_with_db_inner-quantities env t req resp h =
      let (ws, s, checked, added, e) =
        compute-sums trim to_ascii_uppercase parse_i32 env t req resp h in
      ap (λ x. map (λ i. i.qty) x.items) e
      ∙ add_lines-quantities env t req.items (no_sums trim to_ascii_uppercase parse_i32) s added
