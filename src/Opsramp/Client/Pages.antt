-- ===== src/Opsramp/Client/Pages.antt =====
-- internal/opsramp/api.go: the walk through the pages of the inventory.
use opsramp_agent_orchestrat.Prelude.{
  ℕ, zero, suc, ◌+◌, ◌≤◌, ◌<◌, ◌≡◌, refl, false, not, ◌||◌, some, List, [], ◌++◌, leb, le→leb, Text,
  is_empty, Result, Result-cases, ok, err, arith, Bool-cases, inl, inr,
}
use opsramp_agent_orchestrat.Opsramp.Client.{
  SearchResult, after_page, list_from, list_agent_resources,
}

module _ {R : Type 0} (search : ℕ → Result Text (SearchResult R)) (pages : ℕ) where
  -- No answer claims more pages.
  abbrev pub HasPages : Type 0
  HasPages = (page : ℕ) (res : SearchResult R) → search page ≡ ok res → res.total_pages ≤ pages

  list_from-ends :
      (fuel page : ℕ) (all : List R)
      → HasPages
      → pages < page + fuel
      → 0 < fuel
      → (r : Result Text (List R)) × (list_from search fuel page all ≡ some r)
  unfolding list_from after_page
  list_from-ends zero page all h more some_fuel = ground (arith, some_fuel)
  list_from-ends (suc fuel) page all h more some_fuel = elim (Result-cases (search page)) [
    | inr (x, e) ↦ (err x, rw e refl)
    | inl (res, e) ↦
        elim (Bool-cases
          (not res.next_page || (is_empty res.results || leb res.total_pages page))) [
            | inl q ↦ (ok (all ++ res.results), rw (e, q) refl)
            | inr q ↦
                let early : leb res.total_pages page ≡ false = ground (arith, q) in
                let below : page < pages =
                  ground (arith, early, le→leb res.total_pages page, h page res e) in
                let (r, rest) =
                  list_from-ends fuel (page + 1) (all ++ res.results) h (omega (arith, more))
                    (omega (arith, below, more)) in
                (r, rw (e, q) rest)
          ]
  ]

  -- Where no answer claims more than some number of pages, the walk ends on one more than these.
  pub list_agent_resources-ends :
      HasPages → (r : Result Text (List R)) × (list_agent_resources search (suc pages) ≡ some r)
  unfolding list_agent_resources
  list_agent_resources-ends h = list_from-ends (suc pages) 1 [] h (omega arith) (omega arith)
