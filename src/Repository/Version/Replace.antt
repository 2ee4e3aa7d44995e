-- ===== src/Repository/Version/Replace.antt =====
-- `set_content` of a version.
use pulpcore.Prelude.{
  ℕ, ◌≡◌, refl, sym, ap, ◌∙◌, Bool, true, false, not, ◌&&◌, ◌||◌, List, [], ◌∷◌, arith, ◌==◌,
  eq_nat, filter, contains, Bool-cases, inl, inr, eq_of_==,
}
use pulpcore.Repository.Version.{
  Membership, Version, ContentUnit, Result, ok, err, pks, in_domain, add_content, remove_content,
  set_content, and_then,
}
use pulpcore.Repository.Version.Members.{member}
use pulpcore.Repository.Version.Contract.{Tracks, BecomesContent, SetsContent}
use pulpcore.Repository.Version.Add.{add_content-SetsContent}
use pulpcore.Repository.Version.Remove.{remove_content-SetsContent}

-- The rows of `set_content`: what it removes is the old content that is not passed.
surplus-content :
    (ids keep : List ℕ) (everything : List ContentUnit) (x : ℕ)
    → contains
        (pks
          (filter (λ (c : ContentUnit). contains ids c.pk && not (contains keep c.pk)) everything))
        x
      ≡ (contains (pks everything) x && (contains ids x && not (contains keep x)))
surplus-content ids keep [] x = refl
surplus-content ids keep (c ∷ everything) x =
    let below = surplus-content ids keep everything x in
    elim (Bool-cases (x == c.pk)) [
      | inl here ↦
          let e : x ≡ c.pk = eq_of_== x c.pk here in
          let i : contains ids c.pk ≡ contains ids x = ap (contains ids) (sym e) in
          let k : contains keep c.pk ≡ contains keep x = ap (contains keep) (sym e) in
          rw (i, k) (ground (arith, below))
      | inr other ↦ ground (arith, below)
    ]

missing-content :
    (ids : List ℕ) (content : List ContentUnit) (x : ℕ)
    → contains (pks (filter (λ (c : ContentUnit). not (contains ids c.pk)) content)) x
      ≡ (contains (pks content) x && not (contains ids x))
missing-content ids [] x = refl
missing-content ids (c ∷ content) x =
    let below = missing-content ids content x in
    elim (Bool-cases (x == c.pk)) [
      | inl here ↦
          let e : x ≡ c.pk = eq_of_== x c.pk here in
          let i : contains ids c.pk ≡ contains ids x = ap (contains ids) (sym e) in
          rw i (ground (arith, below))
      | inr other ↦ ground (arith, below)
    ]

pub in_domain-filter :
    (domain : ℕ) (p : ContentUnit → Bool) (content : List ContentUnit)
    → in_domain domain content ≡ true
    → in_domain domain (filter p content) ≡ true
in_domain-filter domain p [] h = h
in_domain-filter domain p (c ∷ content) h = ground (arith, in_domain-filter domain p content)

-- The queryset of what `set_content` removes, and of what it adds.
abbrev surplus : List ContentUnit → List ContentUnit → Version → List ContentUnit
surplus everything content v =
    filter (λ (c : ContentUnit). contains v.content_ids c.pk && not (contains (pks content) c.pk))
      everything

abbrev missing : List ContentUnit → Version → List ContentUnit
missing content w = filter (λ (c : ContentUnit). not (contains w.content_ids c.pk)) content

module _ {now then_ final : ℕ → Bool} {v w : Version} {rows rows' : List Membership}
    (first : BecomesContent now v rows w rows') (meet : (x : ℕ) → then_ x ≡ final x) where
  SetsContent-trans :
      (out : Result (Version × List Membership))
      → SetsContent then_ w rows' out
      → SetsContent final v rows out
  SetsContent-trans (err e) h = h
  SetsContent-trans (ok (u, rows'')) h = record {
    number = h.number ∙ first.number;
    complete = h.complete ∙ first.complete;
    tracks = h.tracks;
    content = λ x. ap (λ n. member n x rows'') (sym first.number) ∙ h.content x ∙ meet x;
    earlier = λ k x below. h.earlier k x (rw first.number below) ∙ first.earlier k x below;
  }

-- With `m` for the old content, `e` for what is known and `k` for what is passed.
settled :
    (m e k : Bool)
    → (m ≡ true → e ≡ true)
    → ((m && not (e && (m && not k))) || (k && not (m && not (e && (m && not k))))) ≡ k
settled false e k h = ground arith
settled true e k h = rw (h refl) (ground arith)

module _ (batch_size domain : ℕ) (everything content : List ContentUnit) (v : Version)
    (rows : List Membership)
    (known : (x : ℕ) → member v.number x rows ≡ true → contains (pks everything) x ≡ true)
    (t : Tracks v rows) where
  settled-content :
      (w : Version) (rows' : List Membership)
      → BecomesContent
          (λ x. member v.number x rows && not (contains (pks (surplus everything content v)) x))
          v
          rows
          w
          rows'
      → (x : ℕ)
      → (member w.number x rows' || contains (pks (missing content w)) x) ≡ contains (pks content) x
  settled-content w rows' h x =
      let now = h.content x in
      let ids = h.tracks.agree x ∙ ap (λ n. member n x rows') h.number in
      let less = surplus-content v.content_ids (pks content) everything x in
      let more = missing-content w.content_ids content x in
      rw (h.number, more, ids, now, less, t.agree x)
        (settled (member v.number x rows) (contains (pks everything) x) (contains (pks content) x)
          (known x))

  add_missing :
      v.complete ≡ false
      → in_domain domain content ≡ true
      → (out : Result (Version × List Membership))
      → SetsContent
          (λ x. member v.number x rows && not (contains (pks (surplus everything content v)) x))
          v
          rows
          out
      → SetsContent
          (contains (pks content))
          v
          rows
          (and_then out λ w rows'. add_content batch_size domain (missing content w) w rows')
  add_missing new own (err e) h = h
  add_missing new own (ok (w, rows')) h =
      SetsContent-trans h (settled-content w rows' h)
        (add_content batch_size domain (missing content w) w rows')
        (add_content-SetsContent batch_size domain (missing content w) w rows' h.tracks
          (h.complete ∙ new)
          (in_domain-filter domain (λ (c : ContentUnit). not (contains w.content_ids c.pk)) content
            own))

-- `set_content` on a new version that tracks its content, where all content units are of the domain
-- and those of the version and those passed are among them, succeeds, and the version then has
-- exactly the content passed. The array of keys agrees with the table afterwards, and the earlier
-- versions keep their content.
pub set_content-SetsContent :
    (batch_size domain : ℕ) (everything content : List ContentUnit) (v : Version)
    (rows : List Membership)
    → ((x : ℕ) → member v.number x rows ≡ true → contains (pks everything) x ≡ true)
    → Tracks v rows
    → v.complete ≡ false
    → in_domain domain everything ≡ true
    → in_domain domain content ≡ true
    → SetsContent
        (contains (pks content))
        v
        rows
        (set_content batch_size domain everything content v rows)
unfolding set_content
set_content-SetsContent batch_size domain everything content v rows known t new own own' =
    let less = surplus everything content v in
    add_missing batch_size domain everything content v rows known t new own'
      (remove_content domain less v rows)
      (remove_content-SetsContent domain less v rows t new (
        in_domain-filter domain
          (λ (c : ContentUnit). contains v.content_ids c.pk && not (contains (pks content) c.pk))
          everything own))
