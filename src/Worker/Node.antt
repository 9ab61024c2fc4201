-- ===== src/Worker/Node.antt =====
-- What a node does: it changes the database, and it returns or ends in an exception. What the
-- language models, the search and the object store answer during one run is a record.
use legal_ai_copilot.Prelude.{ℕ, String, Bool, Option, none, some, List}
use legal_ai_copilot.Models.{IntentType, Brief}
use legal_ai_copilot.Database.{Db}

pub data Outcome (A : Type 0) : Type 0 where
  returned : A → Outcome A
  crashed : Outcome A

abbrev pub Node : Type 0 → Type 0
Node A = Db → Outcome A × Db

module _ {A : Type 0} where
  unfoldable pub return : A → Node A
  return a d = (returned a, d)

  -- the value of an attribute, or an `AttributeError`
  unfoldable pub attribute : Option A → Node A
  attribute none d = (crashed, d)
  attribute (some a) d = (returned a, d)

-- what a query returns
unfoldable pub look : {A : Type 0} → (Db → A) → Node A
look f d = (returned (f d), d)

unfoldable pub change : (Db → Db) → Node Unit
change f d = (returned tt, f d)

abbrev pub continue : {A B : Type 0} → Outcome A → (A → Node B) → Node B
continue (returned a) f d = f a d
continue crashed f d = (crashed, d)

infixl 5 ◌>>=◌ ◌>>◌
-- opening this opens `return`, `attribute`, `look` and `change` too
unfoldable pub ◌>>=◌ : {A B : Type 0} → Node A → (A → Node B) → Node B
unfolding return attribute look change
◌>>=◌ m f d = let (r, d') = m d in continue r f d'

abbrev pub ◌>>◌ : {A B : Type 0} → Node A → Node B → Node B
m >> k = m >>= λ _. k

pub record Draft : Type 0 where
  pub draft_text : String
  pub source_citations : List String
  pub grounding_score : ℕ
  pub missing_info : List String

-- `none` stands for an exception
pub record Outside : Type 0 where
  -- the intent and the confidence of `intent_node`'s language model
  pub classification : Option (IntentType × ℕ)
  -- the scores of the chunks that the hybrid search returns
  pub retrieval : Option (List ℕ)
  -- the search came with the metrics of the reranker
  pub reranked : Bool
  -- the brief by structured output, and by the plain-text fallback
  pub brief_structured : Option Brief
  pub brief_fallback : Option Brief
  -- the draft by structured output, recovered from a rejected generation, and by the fallback
  pub draft_structured : Option Draft
  pub draft_recovered : Option Draft
  pub draft_plain : Option Draft
  -- the DOCX was built; it was uploaded
  pub docx_built : Bool
  pub uploaded : Bool
  -- the values of `uuid4`
  pub fresh_id : ℕ → ℕ
  pub now : ℕ
