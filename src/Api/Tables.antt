-- ===== src/Api/Tables.antt =====
-- Rows that are found and changed.
use agentcompany.Prelude.{
  ◌≡◌, refl, Bool, true, false, some, List, [], ◌∷◌, Bool-cases, inl, inr, ap, if◌then◌else◌, arith,
  sym, ◌∙◌, is_some,
}
use agentcompany.Api.{find_row, update_row, select_rows}

some_inj : {A : Type 0} {a b : A} → some a ≡ some b → a ≡ b
some_inj h = cc

not_within :
    {R : Type 0} (narrow wide : R → Bool) (s : R)
    → (narrow s ≡ true → wide s ≡ true)
    → wide s ≡ false
    → narrow s ≡ false
not_within narrow wide s within e = ground (arith, within)

module _ {R : Type 0} where
  -- A row that was changed is found again.
  pub find_row-update_row :
      (wanted : R → Bool) (f : R → R) (rows : List R) {r : R}
      → ((s : R) → wanted (f s) ≡ wanted s)
      → find_row wanted rows ≡ some r
      → find_row wanted (update_row wanted f rows) ≡ some (f r)
  find_row-update_row wanted f [] keeps found = cc
  find_row-update_row wanted f (s ∷ rows) {r} keeps found = elim (Bool-cases (wanted s)) [
    | inl e ↦
        let same : s ≡ r = some_inj (rw e at found) in
        rw e (rw (keeps s, e) (ap (λ x. some (f x)) same))
    | inr e ↦ rw e (rw e (find_row-update_row wanted f rows keeps (rw e at found)))
  ]

  -- Rows that are not wanted stay as they are.
  pub select_rows-update_row :
      (others wanted : R → Bool) (f : R → R) (rows : List R)
      → ((s : R) → wanted s ≡ true → others s ≡ false)
      → ((s : R) → others (f s) ≡ others s)
      → select_rows others (update_row wanted f rows) ≡ select_rows others rows
  select_rows-update_row others wanted f [] apart keeps = refl
  select_rows-update_row others wanted f (s ∷ rows) apart keeps = elim (Bool-cases (wanted s)) [
    | inl e ↦ rw e (rw (keeps s, apart s e) refl)
    | inr e ↦ rw e (
        ap (λ l. if others s then s ∷ l else l)
          (select_rows-update_row others wanted f rows apart keeps))
  ]

  pub find_row-holds :
      (wanted : R → Bool) (rows : List R) {r : R} → find_row wanted rows ≡ some r → wanted r ≡ true
  find_row-holds wanted [] found = cc
  find_row-holds wanted (s ∷ rows) {r} found = elim (Bool-cases (wanted s)) [
    | inl e ↦ let same : s ≡ r = some_inj (rw e at found) in ap wanted (sym same) ∙ e
    | inr e ↦ find_row-holds wanted rows (rw e at found)
  ]

  -- A narrower condition that the row meets finds the same row.
  pub find_row-narrow :
      (wide narrow : R → Bool) (rows : List R) {r : R}
      → ((s : R) → narrow s ≡ true → wide s ≡ true)
      → find_row wide rows ≡ some r
      → narrow r ≡ true
      → find_row narrow rows ≡ some r
  find_row-narrow wide narrow [] within found meets = cc
  find_row-narrow wide narrow (s ∷ rows) {r} within found meets = elim (Bool-cases (wide s)) [
    | inl e ↦
        let same : s ≡ r = some_inj (rw e at found) in rw (ap narrow same ∙ meets) (ap some same)
    | inr e ↦
        rw (not_within narrow wide s (within s) e)
          (find_row-narrow wide narrow rows within (rw e at found) meets)
  ]

  -- And changes the same row.
  pub update_row-narrow :
      (wide narrow : R → Bool) (f : R → R) (rows : List R) {r : R}
      → ((s : R) → narrow s ≡ true → wide s ≡ true)
      → find_row wide rows ≡ some r
      → narrow r ≡ true
      → update_row narrow f rows ≡ update_row wide f rows
  update_row-narrow wide narrow f [] within found meets = refl
  update_row-narrow wide narrow f (s ∷ rows) {r} within found meets = elim (Bool-cases (wide s)) [
    | inl e ↦ let same : s ≡ r = some_inj (rw e at found) in rw (ap narrow same ∙ meets, e) refl
    | inr e ↦
        rw (not_within narrow wide s (within s) e, e)
          (ap (λ l. s ∷ l) (update_row-narrow wide narrow f rows within (rw e at found) meets))
  ]

  -- A change that keeps what a condition reads neither adds nor loses a row that meets it.
  pub is_some-find_row-update_row :
      (wanted changed : R → Bool) (f : R → R) (rows : List R)
      → ((s : R) → wanted (f s) ≡ wanted s)
      → is_some (find_row wanted (update_row changed f rows)) ≡ is_some (find_row wanted rows)
  is_some-find_row-update_row wanted changed f [] keeps = refl
  is_some-find_row-update_row wanted changed f (s ∷ rows) keeps = elim (Bool-cases (changed s)) [
    | inl e ↦
        rw (e, keeps s) (elim (Bool-cases (wanted s)) [ inl x ↦ rw x refl | inr x ↦ rw x refl ])
    | inr e ↦ rw e (elim (Bool-cases (wanted s)) [
      | inl x ↦ rw x refl
      | inr x ↦ rw x (is_some-find_row-update_row wanted changed f rows keeps)
    ])
  ]
