-- ===== src/Worker/Keeps.antt =====
-- Invariants of nodes, one rule for each way to build a node.
use legal_ai_copilot.Prelude.{Bool, true, false, Option, none, some, if◌then◌else◌}
use legal_ai_copilot.Database.{Db}
use legal_ai_copilot.Worker.Node.{
  Node, Outcome, returned, crashed, return, attribute, look, change, continue, ◌>>=◌,
}

-- `m` keeps `P`, whether it returns or crashes
pub record Keeps {A : Type 0} (P : Db → Type 0) (m : Node A) : Type 0 where
  pub at : (d : Db) → P d → P (m d).1

attribute-keeps : {A : Type 0} (P : Db → Type 0) (o : Option A) (d : Db) → P d → P (attribute o d).1
unfolding attribute
attribute-keeps P none d h = h
attribute-keeps P (some a) d h = h

module _ {A : Type 0} {P : Db → Type 0} where
  pub Keeps-return : (a : A) → Keeps P (return a)
  unfolding return
  Keeps-return a = record { at = λ d h. h }

  pub Keeps-look : (f : Db → A) → Keeps P (look f)
  unfolding look
  Keeps-look f = record { at = λ d h. h }

  pub Keeps-attribute : (o : Option A) → Keeps P (attribute o)
  Keeps-attribute o = record { at = attribute-keeps P o }

  pub Keeps-if : (b : Bool) (m n : Node A) → Keeps P m → Keeps P n → Keeps P (if b then m else n)
  Keeps-if true m n km kn = km
  Keeps-if false m n km kn = kn

pub Keeps-change : {P : Db → Type 0} (f : Db → Db) → ((d : Db) → P d → P (f d)) → Keeps P (change f)
unfolding change
Keeps-change f h = record { at = h }

continue-keeps :
    {A B : Type 0} (P : Db → Type 0) (r : Outcome A) (f : A → Node B) (d : Db)
    → ((a : A) → Keeps P (f a))
    → P d
    → P (continue r f d).1
continue-keeps P (returned a) f d kf h = (kf a).at d h
continue-keeps P crashed f d kf h = h

module _ {A B : Type 0} {P : Db → Type 0} where
  pub Keeps-bind :
      (m : Node A) (f : A → Node B) → Keeps P m → ((a : A) → Keeps P (f a)) → Keeps P (m >>= f)
  unfolding ◌>>=◌
  Keeps-bind m f km kf = record {
    at = λ d h. let (r, d') = m d in continue-keeps P r f d' kf (km.at d h);
  }

pub ruleset keeps_rules = (Keeps-return, Keeps-look, Keeps-attribute, Keeps-if, Keeps-bind)
