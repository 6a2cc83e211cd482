-- ===== src/Adapters/Http/Rendered.antt =====
-- How a rendered request follows its template (src/rag_eval/adapters/generic_http.py).
use package.text.Mathlib.Text.{starts_with}
use rag_eval.Prelude.{
  ◌≡◌, ◌≢◌, ◌⊎◌, refl, subst, Option, none, some, true, false, String, str_eq, eq_iff, arith, inl,
  inr, Bool-cases, Option-cases,
}
use rag_eval.Json.{
  Json, null, boolean, number, text, list, dict, Items, no_items, item, Fields, no_fields, field,
  member,
}
use rag_eval.Adapters.Http.Paths.{ok, ◌>>=◌, bind_parts, skip, extract_path}
use rag_eval.Adapters.Http.Templates.{
  render_text, render_template, render_items, render_fields, require_dict, build_body,
}

only_dict : {N : Type 0} (w : Json N) (body : Fields N) → require_dict w ≡ ok body → w ≡ dict body
unfolding require_dict
only_dict null body h = absurd (ground arith)
only_dict (boolean b) body h = absurd (ground arith)
only_dict (number n) body h = absurd (ground arith)
only_dict (text x) body h = absurd (ground arith)
only_dict (list xs) body h = absurd (ground arith)
only_dict (dict gs) body h = ground arith

module _ {N : Type 0} (request : Fields N) where
  -- What a template's text stands for: the whole request, the part of it at the path that follows
  -- `$request.`, or itself.
  abbrev pub StandsFor : String → Json N → Type 0
  StandsFor x w =
      ((x ≡ "$request") × (w ≡ dict request))
      ⊎ ((x ≢ "$request")
          × (((starts_with x "$request." ≡ true) × (extract_path (skip 9 x) (dict request) ≡ ok w))
              ⊎ ((starts_with x "$request." ≡ false) × (w ≡ text x))))

  -- A template and what has been sent for it: the same structure, with the same keys in the same
  -- order, the same numbers and truth values, and for each text what it stands for.
  unfoldable mutual
    pub IsRendered : Json N → Json N → Type 0
    IsRendered null w = w ≡ null
    IsRendered (boolean b) w = w ≡ boolean b
    IsRendered (number n) w = w ≡ number n
    IsRendered (text x) w = StandsFor x w
    IsRendered (list xs) (list ys) = AreRendered xs ys
    IsRendered (list xs) _ = ⊥
    IsRendered (dict fs) (dict gs) = FieldsRendered fs gs
    IsRendered (dict fs) _ = ⊥

    pub AreRendered : Items N → Items N → Type 0
    AreRendered no_items no_items = Unit
    AreRendered (item v xs) (item w ys) = IsRendered v w × AreRendered xs ys
    AreRendered _ _ = ⊥

    pub FieldsRendered : Fields N → Fields N → Type 0
    FieldsRendered no_fields no_fields = Unit
    FieldsRendered (field k v fs) (field j w gs) = (j ≡ k) × IsRendered v w × FieldsRendered fs gs
    FieldsRendered _ _ = ⊥

  render_text-StandsFor : (x : String) (w : Json N) → render_text request x ≡ ok w → StandsFor x w
  unfolding render_text
  render_text-StandsFor x w h = elim (Bool-cases (str_eq x "$request")) [
    | inl whole ↦ inl ((eq_iff x "$request").0 whole, ground arith)
    | inr other ↦
        let differs : x ≢ "$request" = λ e. ground (arith, other, (eq_iff x "$request").1 e) in
        elim (Bool-cases (starts_with x "$request.")) [
          | inl part ↦ inr (differs, inl (part, ground arith))
          | inr plain ↦ inr (differs, inr (plain, ground arith))
        ]
  ]

  mutual
    unfolding render_template IsRendered

    template-IsRendered : (v w : Json N) → render_template request v ≡ ok w → IsRendered v w
    template-IsRendered null w h = ground arith
    template-IsRendered (boolean b) w h = ground arith
    template-IsRendered (number n) w h = ground arith
    template-IsRendered (text x) w h = render_text-StandsFor x w h
    template-IsRendered (list xs) w h =
        let (ys, rendered, done) = bind_parts (render_items request xs) _ w h in
        let written : list ys ≡ w = ground arith in
        subst (λ x. IsRendered (list xs) x) written (items-AreRendered xs ys rendered)
    template-IsRendered (dict fs) w h =
        let (gs, rendered, done) = bind_parts (render_fields request fs) _ w h in
        let written : dict gs ≡ w = ground arith in
        subst (λ x. IsRendered (dict fs) x) written (fields-FieldsRendered fs gs rendered)

    items-AreRendered : (xs ys : Items N) → render_items request xs ≡ ok ys → AreRendered xs ys
    items-AreRendered no_items ys h =
        let written : no_items ≡ ys = ground arith in subst (λ x. AreRendered no_items x) written tt
    items-AreRendered (item v xs) ys h =
        let (w, first, more) = bind_parts (render_template request v) _ ys h in
        let (zs, rest, done) = bind_parts (render_items request xs) _ ys more in
        let written : item w zs ≡ ys = ground arith in
        subst (λ x. AreRendered (item v xs) x) written
          (template-IsRendered v w first, items-AreRendered xs zs rest)

    fields-FieldsRendered :
        (fs gs : Fields N) → render_fields request fs ≡ ok gs → FieldsRendered fs gs
    fields-FieldsRendered no_fields gs h =
        let written : no_fields ≡ gs = ground arith in
        subst (λ x. FieldsRendered no_fields x) written tt
    fields-FieldsRendered (field k v fs) gs h =
        let (w, first, more) = bind_parts (render_template request v) _ gs h in
        let (hs, rest, done) = bind_parts (render_fields request fs) _ gs more in
        let written : field k w hs ≡ gs = ground arith in
        subst (λ x. FieldsRendered (field k v fs) x) written
          (refl, template-IsRendered v w first, fields-FieldsRendered fs hs rest)

  -- A value that is missing or null.
  abbrev pub IsAbsent : Option (Json N) → Type 0
  IsAbsent v = (v ≡ none) ⊎ (v ≡ some null)

  -- The body that an operation sends: the request itself where it has no template, else its template,
  -- rendered.
  abbrev pub IsBody : Fields N → Fields N → Type 0
  IsBody spec body =
      (IsAbsent (member "request" spec) × (body ≡ request))
      ⊎ ((rs : Fields N) × (member "request" spec ≡ some (dict rs))
          × ((IsAbsent (member "body" rs) × (body ≡ request))
              ⊎ ((template : Json N) × (member "body" rs ≡ some template)
                  × (template ≢ null)
                  × IsRendered template (dict body))))

  dict-IsRendered :
      (template : Json N) (body : Fields N)
      → (render_template request template >>= require_dict) ≡ ok body
      → IsRendered template (dict body)
  dict-IsRendered template body h =
      let (w, rendered, is_body) = bind_parts (render_template request template) _ body h in
      subst (λ v. IsRendered template v) (only_dict w body is_body)
        (template-IsRendered template w rendered)

  -- A body that is built is the canonical request itself where the operation has no template for it,
  -- and otherwise the template, rendered: it has the structure of the template, with its keys in their
  -- order, its numbers, truth values and nulls, and in the place of each text the whole request, the
  -- part of the request that it names, or the text itself.
  pub build_body-IsBody :
      (spec body : Fields N) → build_body spec request ≡ ok body → IsBody spec body
  unfolding build_body
  build_body-IsBody spec body h = elim (Option-cases (member "request" spec)) [
    | inl missing ↦ inl (inl missing, ground arith)
    | inr (null, given) ↦ inl (inr given, ground arith)
    | inr (boolean b, given) ↦ absurd (ground arith)
    | inr (number n, given) ↦ absurd (ground arith)
    | inr (text x, given) ↦ absurd (ground arith)
    | inr (list xs, given) ↦ absurd (ground arith)
    | inr (dict rs, given) ↦ inr (
      rs,
      given,
      (elim (Option-cases (member "body" rs)) [
        | inl no_template ↦ inl (inl no_template, ground arith)
        | inr (template, found) ↦ by_template rs template given found
      ]),
    )
  ]
    where
      by_template :
          (rs : Fields N) (template : Json N)
          → member "request" spec ≡ some (dict rs)
          → member "body" rs ≡ some template
          → (IsAbsent (member "body" rs) × (body ≡ request))
            ⊎ ((u : Json N) × (member "body" rs ≡ some u) × (u ≢ null) × IsRendered u (dict body))
      by_template rs null given found = inl (inr found, ground (arith, given, found, h))
      by_template rs (boolean b) given found = inr (
        boolean b,
        found,
        (λ e. ground arith),
        dict-IsRendered (boolean b) body (ground (arith, given, found, h)),
      )
      by_template rs (number b) given found = inr (
        number b,
        found,
        (λ e. ground arith),
        dict-IsRendered (number b) body (ground (arith, given, found, h)),
      )
      by_template rs (text b) given found = inr (
        text b,
        found,
        (λ e. ground arith),
        dict-IsRendered (text b) body (ground (arith, given, found, h)),
      )
      by_template rs (list b) given found = inr (
        list b,
        found,
        (λ e. ground arith),
        dict-IsRendered (list b) body (ground (arith, given, found, h)),
      )
      by_template rs (dict b) given found = inr (
        dict b,
        found,
        (λ e. ground arith),
        dict-IsRendered (dict b) body (ground (arith, given, found, h)),
      )
