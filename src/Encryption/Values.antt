-- ===== src/Encryption/Values.antt =====
-- The values of JavaScript that a response is made of.
use personal_blog_service.Common.{
  ℕ, ◌+◌, String, ◌⊕◌, str_eq, Bool, true, false, decimal, Option, if◌then◌else◌,
}

mutual
  -- An object is its constructor's name, if it has a constructor, and its own properties.
  pub data JsValue : Type 0 where
    undefined : JsValue
    null : JsValue
    number : ℕ → JsValue
    boolean : Bool → JsValue
    text : String → JsValue
    array : Elements → JsValue
    object : Option String → Fields → JsValue

  pub data Elements : Type 0 where
    nil : Elements
    cons : JsValue → Elements → Elements

  pub data Fields : Type 0 where
    end : Fields
    field : String → JsValue → Fields → Fields

-- An object that is the body of a response.
pub record Instance : Type 0 where
  pub class : Option String
  pub fields : Fields

-- The text of an element in the text of its array: nothing for undefined and null.
abbrev as_element : JsValue → String → String
as_element undefined t = ""
as_element null t = ""
as_element _ t = t

mutual
  to_text_of : JsValue → String
  to_text_of undefined = "undefined"
  to_text_of null = "null"
  to_text_of (number n) = decimal n
  to_text_of (boolean true) = "true"
  to_text_of (boolean false) = "false"
  to_text_of (text t) = t
  to_text_of (array vs) = joined vs
  to_text_of (object _ _) = "[object Object]"

  joined : Elements → String
  joined nil = ""
  joined (cons v nil) = as_element v (to_text_of v)
  joined (cons v (cons w vs)) = as_element v (to_text_of v) ⊕ "," ⊕ joined (cons w vs)

-- String(value)
unfoldable pub to_text : JsValue → String
unfolding to_text_of
to_text v = to_text_of v

-- object[key]
abbrev pub get : String → Fields → JsValue
get key end = undefined
get key (field k v fs) = if str_eq k key then v else get key fs

-- object[key] = value
abbrev pub set : String → JsValue → Fields → Fields
set key v end = field key v end
set key v (field k w fs) = if str_eq k key then field k v fs else field k w (set key v fs)

-- The own properties of an array, from the index `i` on.
abbrev pub indexed : ℕ → Elements → Fields
indexed i nil = end
indexed i (cons v vs) = field (decimal i) v (indexed (i + 1) vs)
