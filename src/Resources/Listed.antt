-- ===== src/Resources/Listed.antt =====
-- The CPUs that a set lists, and that `ParseCPUSet` counts them.
use mathlib.Core.Path.{subst}
use eregion.Prelude.{
  ℕ, suc, ◌+◌, ◌-◌, ◌≡◌, ◌↔◌, refl, sym, ap, ◌∙◌, Bool, true, false, ◌||◌, Option, none, some, List,
  [], ◌∷◌, String, ◌⊎◌, inl, inr, Bool-cases, arith, length, some_eq,
}
use eregion.Prelude.Int.{ℤ, pos_part, neg_part, ltb_ℤ, ◌≤ℤ◌}
use eregion.Prelude.Results.{ok, Ensures, Ensures-ok, Ensures->>=, Ensures-guard, Ensures-map}
use eregion.Prelude.Texts.{is_empty, trim_space, split, cut}
use eregion.Prelude.Decimals.{parse_int}
use eregion.Resources.Types.{ParseError}
use eregion.Resources.Parse.{or_fail}
use eregion.Resources.CpuSet.{
  eq_ℤ, is_seen, see, see_range, see_part, see_parts, count_seen, parse_cpu_set,
}
use eregion.Resources.Counted.{
  eq_ℤ→eq, eq_ℤ_self, AreOnce, see-AreOnce, see_range-AreOnce, is_seen-see, in_range,
  is_seen-see_range,
}

-- A part lists its number, or the numbers of its range.
abbrev pub ListsBy : String → Option (String × String) → ℤ → Type 0
ListsBy part none k = parse_int part ≡ some k
ListsBy part (some (a, b)) k =
    (lo : ℤ) × (hi : ℤ) × (parse_int (trim_space a) ≡ some lo)
    × (parse_int (trim_space b) ≡ some hi)
    × (lo ≤ℤ k)
    × (k ≤ℤ hi)

abbrev pub Lists : List String → ℤ → Type 0
Lists [] k = ⊥
Lists (p ∷ ps) k =
    ((is_empty (trim_space p) ≡ false) × ListsBy (trim_space p) (cut b'-' (trim_space p)) k)
    ⊎ Lists ps k

abbrev IsSeen : List ℤ → ℤ → Type 0
IsSeen seen k = is_seen seen k ≡ true

-- What a step adds to the numbers seen.
record Adds (P : ℤ → Type 0) (seen more : List ℤ) : Type 0 where
  once : AreOnce seen → AreOnce more
  adds : (k : ℤ) → IsSeen more k ↔ (IsSeen seen k ⊎ P k)

or_true : {a b : Bool} → (a || b) ≡ true → (a ≡ true) ⊎ (b ≡ true)
or_true {a = true} h = inl refl
or_true {a = false} h = inr h

or_first_true : {a : Bool} (b : Bool) → a ≡ true → (a || b) ≡ true
or_first_true {a = true} b h = refl
or_first_true {a = false} b h = absurd (cc h)

true_or : (a : Bool) {b : Bool} → b ≡ true → (a || b) ≡ true
true_or true h = refl
true_or false h = h

or_fail-eq-ok {ℓ} :
    {A : Type ℓ} (e : ParseError) {o : Option A} {a : A} → or_fail e o ≡ ok a → o ≡ some a
or_fail-eq-ok e {o = none} h = absurd (cc h)
or_fail-eq-ok e {o = some b} h = cc

see-Adds :
    (part : String) (seen : List ℤ) (n : ℤ)
    → parse_int part ≡ some n
    → Adds (ListsBy part none) seen (see seen n)
see-Adds part seen n e = record {
  once = see-AreOnce seen n;
  adds = λ k. (
    λ h. elim (or_true (sym (is_seen-see seen n k) ∙ h)) [
      | inl f ↦ inr (e ∙ ap some (eq_ℤ→eq n k f))
      | inr f ↦ inl f
    ],
    λ h. is_seen-see seen n k ∙ elim h [
      | inl f ↦ true_or (eq_ℤ n k) f
      | inr f ↦
          or_first_true (is_seen seen k)
            (subst (λ j. eq_ℤ n j ≡ true) (some_eq (sym e ∙ f)) (eq_ℤ_self n))
    ],
  );
}

abbrev size : ℤ → ℤ → ℕ
size lo hi = suc ((pos_part hi + neg_part lo) - (pos_part lo + neg_part hi))

in_range→bounds :
    (lo hi k : ℤ) → ltb_ℤ hi lo ≡ false → in_range lo (size lo hi) k ≡ true → (lo ≤ℤ k) × (k ≤ℤ hi)
in_range→bounds lo hi k g h = (ground (arith, g, h), ground (arith, g, h))

bounds→in_range :
    (lo hi k : ℤ) → ltb_ℤ hi lo ≡ false → lo ≤ℤ k → k ≤ℤ hi → in_range lo (size lo hi) k ≡ true
bounds→in_range lo hi k g a b = ground (arith, g, a, b)

see_range-Adds :
    (part a b : String) (seen : List ℤ) (lo hi : ℤ)
    → parse_int (trim_space a) ≡ some lo
    → parse_int (trim_space b) ≡ some hi
    → ltb_ℤ hi lo ≡ false
    → Adds (ListsBy part (some (a, b))) seen (see_range seen lo (size lo hi))
see_range-Adds part a b seen lo hi e f g = record {
  once = see_range-AreOnce seen lo (size lo hi);
  adds = λ k. (
    λ h. elim (or_true (sym (is_seen-see_range seen lo (size lo hi) k) ∙ h)) [
      | inl s ↦ inl s
      | inr s ↦ let (x, y) = in_range→bounds lo hi k g s in inr (lo, hi, e, f, x, y)
    ],
    λ h. is_seen-see_range seen lo (size lo hi) k ∙ elim h [
      | inl s ↦ or_first_true (in_range lo (size lo hi) k) s
      | inr (l, u, p, q, x, y) ↦ true_or (is_seen seen k) (
          bounds→in_range lo hi k g (subst (λ i. i ≤ℤ k) (some_eq (sym p ∙ e)) x)
            (subst (λ i. k ≤ℤ i) (some_eq (sym q ∙ f)) y))
    ],
  );
}

see_part-Adds :
    (seen : List ℤ) (part : String) (o : Option (String × String))
    → Ensures (Adds (ListsBy part o) seen) (see_part seen part o)
see_part-Adds seen part none =
    Ensures->>= λ n e. Ensures-ok (see-Adds part seen n (or_fail-eq-ok _ e))
see_part-Adds seen part (some (a, b)) = Ensures->>= λ lo e. Ensures->>= λ hi f.
    Ensures-guard (ltb_ℤ hi lo) _ _
      λ g. Ensures-ok (see_range-Adds part a b seen lo hi (or_fail-eq-ok _ e) (or_fail-eq-ok _ f) g)

-- A part that is skipped adds nothing, and one that is not adds what it lists.
skip-Adds :
    (p : String) (ps : List String) (seen more : List ℤ)
    → is_empty (trim_space p) ≡ true
    → Adds (Lists ps) seen more
    → Adds (Lists (p ∷ ps)) seen more
skip-Adds p ps seen more e h = record {
  once = h.once;
  adds = λ k. (
    λ s. elim ((h.adds k).0 s) [ inl x ↦ inl x | inr x ↦ inr (inr x) ],
    λ s. elim s [
      | inl x ↦ (h.adds k).1 (inl x)
      | inr y ↦ elim y [ inl (f, _) ↦ absurd (cc (e, f)) | inr z ↦ (h.adds k).1 (inr z) ]
    ],
  );
}

next-Adds :
    (p : String) (ps : List String) (seen some' more : List ℤ)
    → is_empty (trim_space p) ≡ false
    → Adds (ListsBy (trim_space p) (cut b'-' (trim_space p))) seen some'
    → Adds (Lists ps) some' more
    → Adds (Lists (p ∷ ps)) seen more
next-Adds p ps seen some' more e g h = record {
  once = λ o. h.once (g.once o);
  adds = λ k. (
    λ s. elim ((h.adds k).0 s) [
      | inl x ↦ elim ((g.adds k).0 x) [ inl y ↦ inl y | inr y ↦ inr (inl (e, y)) ]
      | inr x ↦ inr (inr x)
    ],
    λ s. elim s [
      | inl x ↦ (h.adds k).1 (inl ((g.adds k).1 (inl x)))
      | inr y ↦ elim y [
        | inl (_, f) ↦ (h.adds k).1 (inl ((g.adds k).1 (inr f)))
        | inr z ↦ (h.adds k).1 (inr z)
      ]
    ],
  );
}

see_parts-Adds :
    (seen : List ℤ) (ps : List String) → Ensures (Adds (Lists ps) seen) (see_parts seen ps)
unfolding see_parts
see_parts-Adds seen [] = Ensures-ok (record {
  once = λ h. h;
  adds = λ k. (λ h. inl h, λ h. elim h [ inl s ↦ s | inr f ↦ absurd f ]);
})
see_parts-Adds seen (p ∷ ps) = elim (Bool-cases (is_empty (trim_space p))) [
  | inl e ↦ rw e (Ensures-map (λ m. skip-Adds p ps seen m e) (see_parts-Adds seen ps))
  | inr e ↦ rw e (
      Ensures->>= λ more f.
        Ensures-map
          (λ m.
            next-Adds p ps seen more m e
              ((see_part-Adds seen (trim_space p) (cut b'-' (trim_space p))).holds more f))
          (see_parts-Adds more ps))
]

-- Numbers, each once, that are those listed.
pub record Counts (parts : List String) (n : ℕ) : Type 0 where
  pub numbers : List ℤ
  pub counted : n ≡ length numbers
  pub once : AreOnce numbers
  pub listed : (k : ℤ) → (is_seen numbers k ≡ true) ↔ Lists parts k

count_seen-eq-ok : (seen : List ℤ) {n : ℕ} → count_seen seen ≡ ok n → n ≡ length seen
count_seen-eq-ok [] h = absurd (cc h)
count_seen-eq-ok (s ∷ ss) h = cc

-- The number that `ParseCPUSet` returns is that of the different CPUs which the set's parts list, alone or
-- in a range, however often and in whatever order.
pub parse_cpu_set-Counts :
    (content : String) → Ensures (Counts (split b',' (trim_space content))) (parse_cpu_set content)
unfolding parse_cpu_set
parse_cpu_set-Counts content = Ensures-guard (is_empty (trim_space content)) _ _ λ _.
    Ensures->>= λ seen e.
      let a = (see_parts-Adds [] (split b',' (trim_space content))).holds seen e in
      record {
        holds = λ n f. record {
          numbers = seen;
          counted = count_seen-eq-ok seen f;
          once = a.once tt;
          listed = λ k. (
            λ s. elim ((a.adds k).0 s) [ inl x ↦ absurd (cc x) | inr x ↦ x ],
            λ s. (a.adds k).1 (inr s),
          );
        };
      }
