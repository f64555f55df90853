-- ===== src/Dashboard/Json.antt =====
-- The values that encoding/json gives for a document, and the functions of Go's library on
-- documents and digests that the operator calls.
use grafana_operator.Common.{String, Bool, Option, Assoc}

mutual
  pub data Json : Type 0 where
    null : Json
    boolean : Bool → Json
    number : String → Json
    text : String → Json
    array : JsonItems → Json
    object : JsonFields → Json

  pub data JsonItems : Type 0 where
    nil : JsonItems
    cons : Json → JsonItems → JsonItems

  pub data JsonFields : Type 0 where
    end : JsonFields
    field : String → Json → JsonFields → JsonFields

-- `json.Unmarshal` into a `map[string]interface{}`, where `none` is an error and `some none` the
-- nil map that the document `null` gives; `json.Marshal` of a map, where `none` is an error; and
-- the hexadecimal digests of a text by `sha1` and `sha256`.
pub record Library : Type 0 where
  pub unmarshal : String → Option (Option (Assoc Json))
  pub marshal : Assoc Json → Option String
  pub sha1 : String → String
  pub sha256 : String → String
