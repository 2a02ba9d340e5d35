-- ===== src/BundleDetection/Soundness.antt =====
-- `propose` of `detectBundleCandidates` (app/engine/bundles.ts): the list keeps what it promises.
use my_meridian.Base.{
  ◌≡◌, refl, sym, ap, ◌∙◌, Bool, true, false, true-ne-false, ◌||◌, List, [], ◌∷◌, ◌++◌, map, String,
  All, All-append, Bool-cases, inl, inr,
}
use my_meridian.Base.Keys.{◌=?◌, string_eq, pair_eq, pair_beq_iff}
use my_meridian.Base.Text.{text_eq}
use my_meridian.BundleNames.{in_bounds}
use my_meridian.BundleDetection.{BundleCandidate, Proposed, pair_of, has_pair, propose}

-- A candidate is of two variants, and its quantity is from two to a thousand.
abbrev pub IsSane : BundleCandidate → Type 0
IsSane c =
    ((c.bundle_variant =? c.component_variant) ≡ false) × (in_bounds c.candidate_quantity ≡ true)

abbrev pub NoRepeat : List (String × String) → Type 0
NoRepeat [] = Unit
NoRepeat (p ∷ ps) = (has_pair p ps ≡ false) × NoRepeat ps

abbrev pub Sound : Proposed → Type 0
Sound s = All IsSane s.candidates × (map pair_of s.candidates ≡ s.seen) × NoRepeat s.seen

neither : (b c : Bool) → (b || c) ≡ false → (b ≡ false) × (c ≡ false)
neither true c h = absurd (true-ne-false h)
neither false c h = (refl, h)

pair_differs : (p q : String × String) → (q =? p) ≡ false → (p =? q) ≡ false
pair_differs p q h = elim (Bool-cases (p =? q)) [
  | inl t ↦ absurd (true-ne-false (sym ((pair_beq_iff q p).1 (sym ((pair_beq_iff p q).0 t))) ∙ h))
  | inr f ↦ f
]

has_pair-append :
    (p q : String × String) (ps : List (String × String))
    → has_pair p ps ≡ false
    → (p =? q) ≡ false
    → has_pair p (ps ++ (q ∷ [])) ≡ false
has_pair-append p q [] h f = rw f refl
has_pair-append p q (x ∷ ps) h f =
    let (other, rest) = neither (p =? x) (has_pair p ps) h in
    rw other (has_pair-append p q ps rest f)

pair_absent :
    (p q : String × String) (ps : List (String × String))
    → has_pair p ps ≡ false
    → has_pair q (p ∷ ps) ≡ false
    → has_pair p (ps ++ (q ∷ [])) ≡ false
pair_absent p q ps a h =
    has_pair-append p q ps a (pair_differs p q (neither (q =? p) (has_pair q ps) h).0)

NoRepeat-append :
    (ps : List (String × String)) (q : String × String)
    → NoRepeat ps
    → has_pair q ps ≡ false
    → NoRepeat (ps ++ (q ∷ []))
NoRepeat-append [] q h a = (refl, tt)
NoRepeat-append (p ∷ ps) q (h, hs) a =
    (pair_absent p q ps h a, NoRepeat-append ps q hs (neither (q =? p) (has_pair q ps) a).1)

map-append :
    (cs : List BundleCandidate) (c : BundleCandidate)
    → map pair_of (cs ++ (c ∷ [])) ≡ map pair_of cs ++ (pair_of c ∷ [])
map-append [] c = refl
map-append (d ∷ cs) c = ap (λ t. pair_of d ∷ t) (map-append cs c)

pub propose-Sound :
    (c : BundleCandidate) (s : Proposed)
    → in_bounds c.candidate_quantity ≡ true
    → Sound s
    → Sound (propose c s)
unfolding propose
propose-Sound c s q (sane, same, once) =
    elim (Bool-cases (c.bundle_variant =? c.component_variant)) [
      | inl itself ↦ rw itself (sane, same, once)
      | inr apart ↦ elim (Bool-cases (has_pair (pair_of c) s.seen)) [
        | inl again ↦ rw (apart, again) (sane, same, once)
        | inr new ↦
            rw (apart, new)
              (
                All-append IsSane s.candidates (c ∷ []) sane ((apart, q), tt),
                map-append s.candidates c ∙ ap (λ t. t ++ (pair_of c ∷ [])) same,
                NoRepeat-append s.seen (pair_of c) once new,
              )
      ]
    ]
