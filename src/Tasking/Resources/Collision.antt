-- ===== src/Tasking/Resources/Collision.antt =====
-- The names that an immediate task is compared by find exactly the tasks that it conflicts with.
use text.Mathlib.TextEquality.{starts_with_iff}
use text.Mathlib.TextPositions.{starts_with-append, len-append, slice-append_right}
use pulpcore.Prelude.{
  String, ◌≡◌, refl, sym, ap, subst, ◌∙◌, true, false, not, Option, List, [], ◌∷◌, ◌++◌, map,
  filter, contains, eq_string, inl, inr, In, Bool-cases, arith, All, ◌↔◌, In-filter, filter-In,
  In-map, map-In, In-append, In-append_left, In-append_right, In-any, any-In, In-contains,
  contains-In, All-In,
}
use pulpcore.Tasking.Resources.{
  is_shared, strip, shared_name, exclusive_of, shared_names, get_resources, or_empty, with_domain,
  colliding_names, record_of, overlaps, Conflict,
}

is_shared-shared_name : (x : String) → is_shared (shared_name x) ≡ true
unfolding is_shared shared_name
is_shared-shared_name x = starts_with-append "shared:" x

strip-shared_name : (x : String) → strip (shared_name x) ≡ x
unfolding strip shared_name
strip-shared_name x = rw (len-append "shared:" x) (slice-append_right "shared:" x)

-- A shared name is the prefix and a resource.
shared_name-strip : (y : String) → is_shared y ≡ true → shared_name (strip y) ≡ y
unfolding is_shared
shared_name-strip y h =
    let (rest, e) = (starts_with_iff y "shared:").0 h in
    let whole : shared_name rest ≡ y = unfold shared_name in e in
    ap (λ z. shared_name (strip z)) (sym whole) ∙ ap shared_name (strip-shared_name rest) ∙ whole

-- Names of resources as the program passes them: without the prefix.
abbrev pub AreBare : List String → Type 0
AreBare = All (λ x. is_shared x ≡ false)

AreBare-snoc :
    (xs : List String) (x : String) → AreBare xs → is_shared x ≡ false → AreBare (xs ++ x ∷ [])
AreBare-snoc [] x h p = (p, tt)
AreBare-snoc (y ∷ ys) x h p = (h.0, AreBare-snoc ys x h.1 p)

with_domain-AreBare :
    (domain_prn : String) (exclusive shared : List String)
    → is_shared domain_prn ≡ false
    → AreBare shared
    → AreBare (with_domain domain_prn exclusive shared)
with_domain-AreBare domain_prn exclusive shared hd hs =
    elim (Bool-cases (contains exclusive domain_prn)) [
      | inl own ↦ rw own hs
      | inr other ↦ rw other (AreBare-snoc shared domain_prn hs hd)
    ]

-- What a task's record says of a resource.
exclusive_iff :
    (names : List String) (x : String)
    → In x (exclusive_of names) ↔ (In x names × (is_shared x ≡ false))
exclusive_iff names x = (
  λ m. let (i, t) = In-filter (λ r. not (is_shared r)) x names m in (i, ground arith),
  λ (i, bare). filter-In (λ r. not (is_shared r)) x names i (rw bare refl),
)

shared_iff :
    (names : List String) (x : String) → In x (shared_names names) ↔ In (shared_name x) names
shared_iff names x = (to, from)
  where
    to : In x (shared_names names) → In (shared_name x) names
    to m =
        let (y, i, e) = map-In strip x (filter is_shared names) m in
        let (j, marked) = In-filter is_shared y names i in
        subst (λ z. In z names) (sym (shared_name-strip y marked) ∙ ap shared_name (sym e)) j

    from : In (shared_name x) names → In x (shared_names names)
    from m =
        subst (λ z. In z (shared_names names)) (strip-shared_name x)
          (In-map strip (shared_name x) (filter is_shared names)
            (filter-In is_shared (shared_name x) names m (is_shared-shared_name x)))

module _ (prior exclusive shared : List String) (bare_exclusive : AreBare exclusive)
    (bare_shared : AreBare shared) where
  own_exclusive : (x : String) → In x (exclusive_of (record_of exclusive shared)) → In x exclusive
  own_exclusive x m =
      let (i, bare) = (exclusive_iff (record_of exclusive shared) x).0 m in
      elim (In-append x exclusive (map shared_name shared) i) [
        | inl e ↦ e
        | inr s ↦
            let (y, _, e) = map-In shared_name x shared s in cc (e, bare, is_shared-shared_name y)
      ]

  exclusive_own : (x : String) → In x exclusive → In x (exclusive_of (record_of exclusive shared))
  exclusive_own x m = (exclusive_iff (record_of exclusive shared) x).1 (
    In-append_left x exclusive (map shared_name shared) m,
    All-In (λ y. is_shared y ≡ false) exclusive bare_exclusive x m,
  )

  own_shared : (x : String) → In x (shared_names (record_of exclusive shared)) → In x shared
  own_shared x m =
      let i = (shared_iff (record_of exclusive shared) x).0 m in
      elim (In-append (shared_name x) exclusive (map shared_name shared) i) [
        | inl e ↦ cc (
          All-In (λ y. is_shared y ≡ false) exclusive bare_exclusive (shared_name x) e,
          is_shared-shared_name x,
        )
        | inr s ↦
            let (y, j, e) = map-In shared_name (shared_name x) shared s in
            let same : x ≡ y = sym (strip-shared_name x) ∙ ap strip e ∙ strip-shared_name y in
            subst (λ z. In z shared) (sym same) j
      ]

  shared_own : (x : String) → In x shared → In x (shared_names (record_of exclusive shared))
  shared_own x m =
      (shared_iff (record_of exclusive shared) x).1
        (In-append_right (shared_name x) exclusive _ (In-map shared_name x shared m))

  overlap-Conflict :
      overlaps (colliding_names exclusive shared) prior ≡ true
      → Conflict prior (record_of exclusive shared)
  overlap-Conflict h =
      let (c, m, t) =
        any-In (λ resource. contains prior resource) (colliding_names exclusive shared) h in
      let held = contains-In c prior t in
      elim (In-append c shared (exclusive ++ map shared_name exclusive) m) [
        | inl s ↦ (
          c,
          inr (
            inr (shared_own c s),
            (exclusive_iff prior c).1
                (held, All-In (λ y. is_shared y ≡ false) shared bare_shared c s),
          ),
        )
        | inr rest ↦ elim (In-append c exclusive (map shared_name exclusive) rest) [
          | inl e ↦ (
            c,
            inl (
              exclusive_own c e,
              inl (
                  (exclusive_iff prior c).1
                    (held, All-In (λ y. is_shared y ≡ false) exclusive bare_exclusive c e)),
            ),
          )
          | inr s ↦
              let (y, j, e) = map-In shared_name c exclusive s in
              (
                y,
                inl (
                  exclusive_own y j,
                  inr ((shared_iff prior y).1 (subst (λ z. In z prior) e held)),
                ),
              )
        ]
      ]

  overlap-of :
      (c : String)
      → In c (colliding_names exclusive shared)
      → In c prior
      → overlaps (colliding_names exclusive shared) prior ≡ true
  overlap-of c m held =
      In-any (λ resource. contains prior resource) c (colliding_names exclusive shared) m
        (In-contains c prior held)

  Conflict-overlap :
      Conflict prior (record_of exclusive shared)
      → overlaps (colliding_names exclusive shared) prior ≡ true
  Conflict-overlap (x, inl (m, inl u)) =
      let e = own_exclusive x m in
      overlap-of x (In-append_right x shared _ (In-append_left x exclusive _ e))
        ((exclusive_iff prior x).0 u).0
  Conflict-overlap (x, inl (m, inr u)) =
      let e = own_exclusive x m in
      overlap-of (shared_name x)
        (In-append_right (shared_name x) shared _
          (In-append_right (shared_name x) exclusive _ (In-map shared_name x exclusive e)))
        ((shared_iff prior x).0 u)
  Conflict-overlap (x, inr (inl u, m)) =
      let e = own_exclusive x u in
      overlap-of x (In-append_right x shared _ (In-append_left x exclusive _ e))
        ((exclusive_iff prior x).0 m).0
  Conflict-overlap (x, inr (inr u, m)) =
      overlap-of x (In-append_left x shared _ (own_shared x u)) ((exclusive_iff prior x).0 m).0

-- Let the names that an immediate task is dispatched with, and its domain, be bare names. Then the
-- names it is compared by overlap with the reserved resources of another task exactly when the two
-- tasks conflict: when one of them uses a resource that the other reserves for itself.
pub overlap-iff-Conflict :
    (domain_prn : String) (exclusive_arg shared_arg : Option (List String)) (prior : List String)
    → is_shared domain_prn ≡ false
    → AreBare (or_empty exclusive_arg)
    → AreBare (or_empty shared_arg)
    → (overlaps (get_resources domain_prn exclusive_arg shared_arg true).0 prior ≡ true)
      ↔ Conflict prior (get_resources domain_prn exclusive_arg shared_arg true).1
unfolding get_resources
overlap-iff-Conflict domain_prn exclusive_arg shared_arg prior hd he hs =
    let exclusive = or_empty exclusive_arg in
    let shared = with_domain domain_prn exclusive (or_empty shared_arg) in
    let bare = with_domain-AreBare domain_prn exclusive (or_empty shared_arg) hd hs in
    (
      overlap-Conflict prior exclusive shared he bare,
      Conflict-overlap prior exclusive shared he bare,
    )
