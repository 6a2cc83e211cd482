-- ===== src/Adapters/Http/Templates.antt =====
-- Request templates: `_render_template`, `_build_body` and `_template_references` of
-- src/rag_eval/adapters/generic_http.py.
use Prim.Native.String.{String}
use package.text.Mathlib.Text.{starts_with}
use rag_eval.Prelude.{Bool, false, ◌||◌, Option, none, some, str_eq, if◌then◌else◌}
use rag_eval.Json.{
  Json, null, boolean, number, text, list, dict, Items, no_items, item, Fields, no_fields, field,
  member,
}
use rag_eval.Adapters.Http.Paths.{value_error, Result, ok, err, ◌>>=◌, skip, extract_path}

module _ {N : Type 0} where
  -- The branch of `_render_template` for a text.
  unfoldable pub render_text : Fields N → String → Result (Json N)
  render_text request x =
      if str_eq x "$request"
      then ok (dict request)
      else (if starts_with x "$request."
          then extract_path (skip 9 x) (dict request)
          else ok (text x))

  -- `_render_template`
  unfoldable mutual
    pub render_template : Fields N → Json N → Result (Json N)
    render_template request null = ok null
    render_template request (boolean b) = ok (boolean b)
    render_template request (number n) = ok (number n)
    render_template request (text x) = render_text request x
    render_template request (list xs) = render_items request xs >>= λ ys. ok (list ys)
    render_template request (dict fs) = render_fields request fs >>= λ gs. ok (dict gs)

    pub render_items : Fields N → Items N → Result (Items N)
    render_items request no_items = ok no_items
    render_items request (item v xs) =
        render_template request v >>= λ w. render_items request xs >>= λ ys. ok (item w ys)

    pub render_fields : Fields N → Fields N → Result (Fields N)
    render_fields request no_fields = ok no_fields
    render_fields request (field k v fs) =
        render_template request v >>= λ w. render_fields request fs >>= λ gs. ok (field k w gs)

  unfoldable pub require_dict : Json N → Result (Fields N)
  require_dict (dict gs) = ok gs
  require_dict _ = err value_error

  body_from : Fields N → Option (Json N) → Result (Fields N)
  unfolding require_dict
  body_from request none = ok request
  body_from request (some null) = ok request
  body_from request (some template) = render_template request template >>= require_dict

  request_from : Fields N → Option (Json N) → Result (Fields N)
  unfolding body_from
  request_from request none = ok request
  request_from request (some null) = ok request
  request_from request (some (dict spec)) = body_from request (member "body" spec)
  request_from request (some _) = err value_error

  -- `_build_body`
  unfoldable pub build_body : Fields N → Fields N → Result (Fields N)
  unfolding request_from
  build_body spec request = request_from request (member "request" spec)

  -- `_template_references`
  unfoldable mutual
    pub template_references : String → Json N → Bool
    template_references reference (text x) = str_eq x reference
    template_references reference (list xs) = items_reference reference xs
    template_references reference (dict fs) = fields_reference reference fs
    template_references reference _ = false

    pub items_reference : String → Items N → Bool
    items_reference reference no_items = false
    items_reference reference (item v xs) =
        template_references reference v || items_reference reference xs

    pub fields_reference : String → Fields N → Bool
    fields_reference reference no_fields = false
    fields_reference reference (field k v fs) =
        template_references reference v || fields_reference reference fs
