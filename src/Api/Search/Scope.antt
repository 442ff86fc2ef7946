-- ===== src/Api/Search/Scope.antt =====
-- api/search.py: which filters reach the search engine.
use Prim.Native.String.{◌++◌}
use agentcompany.Prelude.{◌≡◌, refl, String, Bool, true, false, List, [], ◌∷◌, arith}
use agentcompany.Exec.{pure, raise_if, lift, Error}
use agentcompany.Exec.Hoare.{
  Triple, Keeps, keeps_bind, triple_bind, triple_state, state_of, triple_pure, triple_fact,
}
use agentcompany.Json.{Json, Fields, str, field, end}
use agentcompany.Api.Search.{
  SearchRequest, SearchServices, Found, is_allowed_key, company_clause, key_clause,
  validate_filter_key, validate_filter_value, add_clauses, search_body, search_index,
  search_indices, search,
}

module _ {W : Type 0} (services : SearchServices W) where
  open services use {is_forbidden, text_of, post}

  -- A filter for a company: the clause of the company, which is free of the forbidden pattern, and
  -- clauses of permitted keys whose values are free of it.
  pub data Scoped (company : String) : String → Type 0 where
    company_only : is_forbidden company ≡ false → Scoped company (company_clause company)
    narrowed :
        (f key value : String)
        → Scoped company f
        → is_allowed_key key ≡ true
        → is_forbidden value ≡ false
        → Scoped company (f ++ key_clause key value)

  module _ {I : W → Type 0} where
    guard_fact : (b : Bool) (e : Error) → Triple I (raise_if b e) (λ _ s. (b ≡ false) × I s) I
    unfolding raise_if
    guard_fact true e = record { at = λ s h. h }
    guard_fact false e = record { at = λ s h. (refl, h) }

    validate_filter_value-Safe :
        (key : String) (value : Json)
        → Triple I
            (validate_filter_value services key value)
            (λ t s. ((t ≡ text_of value) × (is_forbidden t ≡ false)) × I s)
            I
    unfolding validate_filter_value
    validate_filter_value-Safe key value =
        triple_bind _ _ (guard_fact _ _)
          (λ _. triple_fact (λ safe. triple_pure (text_of value) (λ s h. ((refl, safe), h))))

    add_clauses-Scoped :
        (company : String) (filters : Fields) (f : String)
        → Scoped company f
        → Triple I (add_clauses services filters f) (λ g s. Scoped company g × I s) I
    unfolding add_clauses validate_filter_key
    add_clauses-Scoped company end f scoped = triple_pure f (λ s h. (scoped, h))
    add_clauses-Scoped company (field key value rest) f scoped =
        triple_bind _ _ (guard_fact _ _) (λ _. triple_fact (λ permitted.
          triple_bind _ _ (validate_filter_value-Safe key value) (λ t. triple_fact (λ safe.
            add_clauses-Scoped company rest _
              (narrowed f key t scoped (ground (arith, permitted)) safe.1)))))

    search_indices-Keeps :
        (body : Fields) (names : List String) (found : Found)
        → ((path : String) → Keeps I (post path body))
        → Keeps I (search_indices services body names found)
    unfolding search_indices search_index
    search_indices-Keeps body [] found keeps = triple_pure found (λ s h. h)
    search_indices-Keeps body (name ∷ names) found keeps =
        keeps_bind _ _ (triple_state _ (λ s h. state_of (keeps _) s h))
          (λ found'. search_indices-Keeps body names found' keeps)

  -- A search asks the search engine only with filters for the company of the request, of permitted
  -- keys and of values without the forbidden pattern: what every such request keeps is kept by the
  -- search, whether it returns or raises, and whatever its filters hold.
  pub search-Keeps :
      (I : W → Type 0) (body : SearchRequest)
      → ((path f : String)
          → Scoped (text_of (str body.company_id)) f
          → Keeps I (post path (search_body services body f)))
      → Keeps I (search services body)
  unfolding search lift pure
  search-Keeps I body keeps = triple_bind _ _ (guard_fact _ _) (λ _. triple_fact (λ _.
      triple_bind _ _ (validate_filter_value-Safe _ _) (λ company. triple_fact (λ safe.
        triple_bind _ _
          (add_clauses-Scoped (text_of (str body.company_id)) body.filters _
            (rw safe.0 (company_only (rw safe.0 at safe.1))))
          (λ f. triple_fact (λ scoped.
            keeps_bind _ _ (search_indices-Keeps _ _ _ (λ path. keeps path f scoped)) (λ found.
              keeps_bind _ _ (triple_state _ (λ s h. h)) (λ more. triple_state _ (λ s h. h)))))))))
