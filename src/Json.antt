-- ===== src/Json.antt =====
-- JSON-compatible values, as the configuration and the target's responses hold them. A dict is the
-- list of its entries; the numbers, integers and floats, are of an opaque type.
use rag_eval.Prelude.{Bool, Option, none, some, String, is_some, str_eq, if◌then◌else◌}

mutual
  pub data Json (N : Type 0) : Type 0 where
    null : Json N
    boolean : Bool → Json N
    number : N → Json N
    text : String → Json N
    list : Items N → Json N
    dict : Fields N → Json N

  pub data Items (N : Type 0) : Type 0 where
    no_items : Items N
    item : Json N → Items N → Items N

  pub data Fields (N : Type 0) : Type 0 where
    no_fields : Fields N
    field : String → Json N → Fields N → Fields N

module _ {N : Type 0} where
  -- `d.get(k)`, with `none` for a missing key.
  unfoldable pub member : String → Fields N → Option (Json N)
  member k no_fields = none
  member k (field j v fs) = if str_eq j k then some v else member k fs

  -- `k in d`
  abbrev pub has_key : String → Fields N → Bool
  has_key k fs = is_some (member k fs)
