-- ===== src/Tests/Founding.antt =====
-- The founding of an organisation by a new account.
use legal_ai_copilot.Prelude.{some, none, ◌≡◌, refl}
use legal_ai_copilot.Prelude.Table.{select_one, exists_where}
use legal_ai_copilot.Http.{http}
use legal_ai_copilot.Accounts.Context.{Claims}
use legal_ai_copilot.Accounts.Signup.{SetupOrgRequest, setup_org}
use legal_ai_copilot.Accounts.Founding.{IsFresh, Founds, setup_org-Founds}
use legal_ai_copilot.Tests.Enrolled.{crypto, fresh, accounts}

abbrev cy_claims : Claims
cy_claims = record { sub = some "s3"; email = some "cy@x.org" }

abbrev setup_request : SetupOrgRequest
setup_request = record { org_id = "cy-law"; org_name = none }

fresh-IsFresh : IsFresh fresh accounts
unfolding exists_where
fresh-IsFresh = record { organization = refl; user = refl; member = refl; workspace = refl }

setup_org-Founds_example :
    let r = setup_org crypto fresh cy_claims setup_request accounts in
    Founds crypto fresh cy_claims setup_request accounts r.0 r.1
setup_org-Founds_example =
    setup_org-Founds crypto fresh cy_claims setup_request accounts fresh-IsFresh

-- an account of that email, under another subject
known_email :
    (setup_org crypto fresh
      (record cy_claims { email = some "ada@x.org" })
      setup_request
      accounts).0
    ≡ http 409
unfolding setup_org select_one
known_email = refl
