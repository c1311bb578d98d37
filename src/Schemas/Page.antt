-- ===== src/Schemas/Page.antt =====
-- `PageMeta` and `Page` of api/app/schemas/base.py. The counters are natural numbers: a `per_page`
-- that is not positive is 0. `total / per_page` is a division of floats. Its ceiling is that of the
-- exact quotient as long as both numbers are at most 2 ^ 53, and `ceil_div` models it there only.
use native.Mathlib.Nat.{div-lt_iff_lt-mul}
use gpca_v.Prelude.{
  ℕ, true, List, ◌+◌, ◌-◌, ◌*◌, ◌/◌, ◌≤◌, ◌<◌, ◌≡◌, refl, arith, ltb, if◌then◌else◌,
}

pub record PageMeta : Type 0 where
  pub page : ℕ
  pub per_page : ℕ
  pub total : ℕ
  pub total_pages : ℕ

pub record Page {ℓ} (A : Type ℓ) : Type ℓ where
  pub data_items : List A
  pub meta : PageMeta

-- the greatest number up to which a float holds every natural number, 2 ^ 53
abbrev pub float_exact : ℕ
float_exact = 9007199254740992

-- `ceil(total / per_page)` for a positive `per_page`, when neither exceeds `float_exact`
abbrev pub ceil_div : ℕ → ℕ → ℕ
ceil_div total per_page = (total + (per_page - 1)) / per_page

-- `Page.of`
unfoldable pub page_of {ℓ} : {A : Type ℓ} → List A → ℕ → ℕ → ℕ → Page A
page_of items page per_page total = record {
  data_items = items;
  meta = record {
    page = page;
    per_page = per_page;
    total = total;
    total_pages = if ltb 0 per_page then ceil_div total per_page else 0;
  };
}

module _ (total per_page : ℕ) (positive : 0 < per_page) where
  ceil_div-covers : total ≤ ceil_div total per_page * per_page
  ceil_div-covers =
      let h : total + (per_page - 1) < (ceil_div total per_page + 1) * per_page =
        (div-lt_iff_lt-mul {k = per_page} positive).0 (omega arith) in
      omega arith

  ceil_div-least : (k : ℕ) → total ≤ k * per_page → ceil_div total per_page ≤ k
  ceil_div-least k h =
      let below : ceil_div total per_page < k + 1 =
        (div-lt_iff_lt-mul {k = per_page} positive).1 (omega arith) in
      omega arith

-- A page keeps its items and its total, and for a positive page size its `total_pages` is the least
-- number of pages that hold the total, if neither the page size nor the total exceeds 2 ^ 53.
pub page_of_lem {ℓ} :
    {A : Type ℓ} (items : List A) (page per_page total : ℕ)
    → 0 < per_page
    → per_page ≤ float_exact
    → total ≤ float_exact
    → let p = page_of items page per_page total in
      (p.data_items ≡ items)
      × (p.meta.total ≡ total)
      × (total ≤ p.meta.total_pages * per_page)
      × ((k : ℕ) → total ≤ k * per_page → p.meta.total_pages ≤ k)
unfolding page_of
page_of_lem items page per_page total positive per_page_exact total_exact =
    rw (test)
      (refl, refl, ceil_div-covers total per_page positive, ceil_div-least total per_page positive)
  where
    test : ltb 0 per_page ≡ true
    test = ground arith
