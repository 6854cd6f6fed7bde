-- ===== src/Execution/Values.antt =====
-- Values that a plugin returns at run time, before they are checked: whatever JavaScript has.
use linear_pi_orchestrator.Prelude.{String, Bool, true, false, if◌then◌else◌, ◌==◌}
use linear_pi_orchestrator.Prelude.Texts.{append}
use linear_pi_orchestrator.Prelude.Results.{Result, ok, thrown}

-- A number is its text and whether it is finite; `opaque` is a function, a symbol, a bigint, or an
-- object that stands inside itself.
mutual
  pub data Value : Type 0 where
    undefined : Value
    null : Value
    boolean : Bool → Value
    number : String → Bool → Value
    text : String → Value
    array : Values → Value
    object : Members → Value
    opaque : Value

  pub data Values : Type 0 where
    end : Values
    element : Value → Values → Values

  pub data Members : Type 0 where
    close : Members
    member : String → Value → Members → Members

-- A missing member reads as undefined.
unfoldable pub member_of : Members → String → Value
member_of close k = undefined
member_of (member j v ms) k = let rest = member_of ms k in if j == k then v else rest

-- `k in value`
unfoldable pub has_member : Members → String → Bool
has_member close k = false
has_member (member j v ms) k = let rest = has_member ms k in if j == k then true else rest

-- `v !== undefined`
abbrev pub is_defined : Value → Bool
is_defined undefined = false
is_defined v = true

-- `v === s`
abbrev pub is_text : Value → String → Bool
is_text (text t) s = t == s
is_text v s = false

-- `typeof v === "string"`
abbrev pub is_string : Value → Bool
is_string (text t) = true
is_string v = false

unfoldable mutual
  -- String(v)
  pub string_of : Value → String
  string_of undefined = "undefined"
  string_of null = "null"
  string_of (boolean true) = "true"
  string_of (boolean false) = "false"
  string_of (number s finite) = s
  string_of (text s) = s
  string_of (array end) = ""
  string_of (array (element v vs)) = append (element_text v) (joined vs)
  string_of (object ms) = "[object Object]"
  string_of opaque = "[opaque]"

  pub element_text : Value → String
  element_text undefined = ""
  element_text null = ""
  element_text (boolean true) = "true"
  element_text (boolean false) = "false"
  element_text (number s finite) = s
  element_text (text s) = s
  element_text (array end) = ""
  element_text (array (element v vs)) = append (element_text v) (joined vs)
  element_text (object ms) = "[object Object]"
  element_text opaque = "[opaque]"

  pub joined : Values → String
  joined end = ""
  joined (element v vs) = append (append "," (element_text v)) (joined vs)

unfoldable mutual
  -- assertJsonValue
  pub is_json : Value → Bool
  is_json undefined = false
  is_json null = true
  is_json (boolean b) = true
  is_json (number s finite) = finite
  is_json (text s) = true
  is_json (array vs) = are_json vs
  is_json (object ms) = have_json ms
  is_json opaque = false

  pub are_json : Values → Bool
  are_json end = true
  are_json (element v vs) = let rest = are_json vs in if is_json v then rest else false

  pub have_json : Members → Bool
  have_json close = true
  have_json (member k v ms) = let rest = have_json ms in if is_json v then rest else false

pub assert_json_value : Value → String → Result (Unit {0})
assert_json_value v subject =
    if is_json v then ok tt else thrown (append subject " must be JSON-serializable.")
