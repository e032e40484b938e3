-- ===== src/Consumer/Audit.antt =====
-- internal/consumer/audit_consumer.go: `handle` is the handler that `Start` subscribes to the audit
-- topic. The database, the auditor and the feed cache are parameters over one state; log lines and
-- payloads that are no JSON are left out.
pub mod Visible
use cooking_platform.Prelude.{ℕ, ◌≡◌, ◌⊎◌, List, [], ◌∷◌, ◌++◌, ◌==◌, if◌then◌else◌}
use cooking_platform.Prelude.Text.{Bytes}
use cooking_platform.Action.{Result, ok, err, Action}
use cooking_platform.Model.{
  Post, PostStep, audit_status_pending, audit_status_machine_pass, post_visible, post_invisible,
}

-- the fields of an `AuditEvent` that are read
pub record AuditEvent : Type 0 where
  pub post_id : ℕ
  pub author_id : ℕ
  pub audit_status : ℕ

pub record ReviewRequest : Type 0 where
  pub post_id : ℕ
  pub author_id : ℕ
  pub title : Bytes
  pub content : Bytes
  pub image_urls : List Bytes

pub record ReviewResult : Type 0 where
  pub status : ℕ
  pub remark : Bytes
  pub raw : Bytes

-- a row of `audit_logs` before it is inserted
pub record AuditLog : Type 0 where
  pub post_id : ℕ
  pub author_id : ℕ
  pub audit_status : ℕ
  pub remark : Bytes
  pub raw_response : Bytes
  pub created_at : ℕ

pub record AuditWorld (W : Type 0) : Type 0 where
  pub find_by_id : ℕ → Action W Post
  pub load_steps : ℕ → Action W (List PostStep)
  pub review : ReviewRequest → Action W ReviewResult
  pub create : AuditLog → Action W (Unit {0})
  -- post, audit status, is visible, remark
  pub update_audit_status : ℕ → ℕ → ℕ → Bytes → Action W (Unit {0})
  pub bump_feed_version : Action W ℕ
  -- the column `is_visible` of a post
  pub is_visible : W → ℕ → ℕ

-- Only the update writes the column, of its own post and with the value it is given. A statement that
-- returns an error may have been carried out or not.
pub record AuditLaws {W : Type 0} (w : AuditWorld W) : Type 0 where
  pub finds : (p q : ℕ) (s : W) → w.is_visible (w.find_by_id p s).1 q ≡ w.is_visible s q
  pub loads : (p q : ℕ) (s : W) → w.is_visible (w.load_steps p s).1 q ≡ w.is_visible s q
  pub reviews :
      (r : ReviewRequest) (q : ℕ) (s : W) → w.is_visible (w.review r s).1 q ≡ w.is_visible s q
  pub creates : (l : AuditLog) (q : ℕ) (s : W) → w.is_visible (w.create l s).1 q ≡ w.is_visible s q
  pub updates :
      (p status v : ℕ) (remark : Bytes) (q : ℕ) (s : W)
      → (w.is_visible (w.update_audit_status p status v remark s).1 q ≡ w.is_visible s q)
        ⊎ ((p ≡ q) × (w.is_visible (w.update_audit_status p status v remark s).1 q ≡ v))
  pub bumps : (q : ℕ) (s : W) → w.is_visible (w.bump_feed_version s).1 q ≡ w.is_visible s q

abbrev pub step_urls : List PostStep → List Bytes
step_urls [] = []
step_urls (step ∷ steps) = step.image_urls ++ step_urls steps

-- `collectImageURLs`
abbrev pub collect_image_urls : Bytes → List PostStep → List Bytes
collect_image_urls [] steps = step_urls steps
collect_image_urls (c ∷ url) steps = (c ∷ url) ∷ step_urls steps

abbrev pub visible_of : ℕ → ℕ
visible_of status = if status == audit_status_machine_pass then post_visible else post_invisible

module _ {W : Type 0} (w : AuditWorld W) (now : ℕ) where
  -- after the update: the feed version
  abbrev pub after_update : ℕ → Result (Unit {0}) × W → W
  after_update visible (err e, s) = s
  after_update visible (ok _, s) = if visible == post_visible then (w.bump_feed_version s).1 else s

  -- after the review: the log row, whose error is ignored, and the update
  abbrev pub after_review : AuditEvent → Result ReviewResult × W → W
  after_review e (err _, s) = s
  after_review e (ok result, s) =
      let row : AuditLog = record {
        post_id = e.post_id;
        author_id = e.author_id;
        audit_status = result.status;
        remark = result.remark;
        raw_response = result.raw;
        created_at = now;
      } in
      let visible = visible_of result.status in
      after_update visible
        (w.update_audit_status e.post_id result.status visible result.remark (w.create row s).1)

  -- without its steps a post is reviewed by its text
  abbrev pub steps_or_none : Result (List PostStep) → List PostStep
  steps_or_none (ok steps) = steps
  steps_or_none (err _) = []

  abbrev pub request_of : AuditEvent → Post → List PostStep → ReviewRequest
  request_of e post steps = record {
    post_id = e.post_id;
    author_id = e.author_id;
    title = post.title;
    content = post.content;
    image_urls = collect_image_urls post.cover_url steps;
  }

  abbrev pub after_find : AuditEvent → Result Post × W → W
  after_find e (err _, s) = s
  after_find e (ok post, s) =
      let (loaded, s') = w.load_steps e.post_id s in
      after_review e (w.review (request_of e post (steps_or_none loaded)) s')

  unfoldable pub process : AuditEvent → W → W
  process e s = after_find e (w.find_by_id e.post_id s)

  unfoldable pub handle : AuditEvent → W → W
  unfolding process
  handle e s = if e.audit_status == audit_status_pending then process e s else s

-- events with the times at which they are handled
unfoldable pub handle_all : {W : Type 0} → AuditWorld W → List (ℕ × AuditEvent) → W → W
unfolding handle
handle_all w [] s = s
handle_all w (e ∷ es) s = handle_all w es (handle w e.0 e.1 s)
