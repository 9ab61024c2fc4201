-- ===== src/Approvals/Listing.antt =====
-- The page of list_pending_approvals in app/routers/approvals.py.
use legal_ai_copilot.Prelude.{
  ℕ, ◌≤◌, Bool, ◌≡◌, true, List, ◌&&◌, ◌==◌, ltb, arith, Among, Among-take, Among-drop, length,
  take, drop, length-take, sym,
}
use legal_ai_copilot.Prelude.Table.{select, Among-select}
use legal_ai_copilot.Models.{ApprovalRequest, is_pending}
use legal_ai_copilot.Database.{Db}
use legal_ai_copilot.Http.{Request, ok}
use legal_ai_copilot.Services.{Services, IsSelecting}
use legal_ai_copilot.Approvals.Endpoints.{list_pending_approvals}

-- a pending request of the organisation that has not run out
abbrev pub is_listed : Request → ApprovalRequest → Bool
is_listed req a = a.org_id == req.org_id && is_pending a.status && ltb req.now a.expires_at

module _ (sv : Services) (req : Request) (limit offset : ℕ) (d : Db) (page : List ApprovalRequest)
    (total : ℕ)
    (answers : (list_pending_approvals sv req limit offset d).0 ≡ ok (page, total)) where
  page_of :
      (page ≡ take limit (drop offset (sv.newest_first (select (is_listed req) d.approvals))))
      × (total ≡ length (select (is_listed req) d.approvals))
  unfolding list_pending_approvals
  page_of = ground arith

  -- The page has at most `limit` requests, and every request on it is a row of the table that is
  -- pending, has not run out and belongs to the organisation that asks.
  pub list_pending-page :
      (a : ApprovalRequest)
      → IsSelecting sv
      → Among a page
      → (length page ≤ limit) × Among a d.approvals × (is_listed req a ≡ true)
  list_pending-page a sel m =
      let rows = select (is_listed req) d.approvals in
      let sorted = sv.newest_first rows in
      let on_page : Among a (take limit (drop offset sorted)) = rw (sym page_of.0) m in
      let (there, e) = Among-select (is_listed req) d.approvals a (
        sel.newest_first-Among rows a
          (Among-drop offset sorted a (Among-take limit (drop offset sorted) a on_page))) in
      (rw page_of.0 (omega (arith, length-take limit (drop offset sorted))), there, e)
