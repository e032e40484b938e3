-- ===== src/Tests/Audit.antt =====
-- The theorem on the audit consumer, at a small table of posts.
use cooking_platform.Prelude.{
  ℕ, ◌≡◌, ◌⊎◌, inl, inr, refl, List, [], ◌∷◌, ◌==◌, if◌then◌else◌, arith, Bool-cases,
}
use cooking_platform.Prelude.Text.{codes}
use cooking_platform.Action.{ok}
use cooking_platform.Model.{Post, post_visible}
use cooking_platform.Consumer.Audit.{AuditEvent, AuditWorld, AuditLaws, process, handle, handle_all}
use cooking_platform.Consumer.Audit.Visible.{Approved, handle_all-visible}

abbrev draft : ℕ → Post
draft p = record {
  id = p;
  user_id = 3;
  title = codes "soup";
  content = codes "boil";
  scene_tag = 1;
  cook_duration = 20;
  cover_url = [];
  like_count = 0;
  view_count = 0;
  is_visible = 0;
  audit_status = 0;
  audit_remark = [];
  created_at = 1;
  updated_at = 1;
}

-- the column `is_visible` of each post; the auditor passes post 7 alone
abbrev memory_audit : AuditWorld (ℕ → ℕ)
memory_audit = record {
  find_by_id = λ p s. (ok (draft p), s);
  load_steps = λ p s. (ok [], s);
  review =
      λ r s. (ok (record { status = if r.post_id == 7 then 1 else 4; remark = []; raw = [] }), s);
  create = λ l s. (ok tt, s);
  update_audit_status = λ p status v remark s. (ok tt, λ q. if p == q then v else s q);
  bump_feed_version = λ s. (ok 1, s);
  is_visible = λ s q. s q;
}

set_one :
    (p v q : ℕ) (s : ℕ → ℕ)
    → ((if p == q then v else s q) ≡ s q) ⊎ ((p ≡ q) × ((if p == q then v else s q) ≡ v))
set_one p v q s = elim (Bool-cases (p == q)) [
  | inl holds ↦ inr (ground (arith, holds), rw holds refl)
  | inr fails ↦ inl (rw fails refl)
]

memory_audit-laws : AuditLaws memory_audit
memory_audit-laws = record {
  finds = λ p q s. refl;
  loads = λ p q s. refl;
  reviews = λ r q s. refl;
  creates = λ l q s. refl;
  updates = λ p status v remark q s. set_one p v q s;
  bumps = λ q s. refl;
}

abbrev submitted : ℕ → AuditEvent
submitted p = record { post_id = p; author_id = 3; audit_status = 0 }

abbrev two_submissions : List (ℕ × AuditEvent)
two_submissions = (10, submitted 8) ∷ (20, submitted 7) ∷ []

denied : handle_all memory_audit two_submissions (λ _. 0) 8 ≡ 0
unfolding handle_all handle process
denied = refl

handle_all-visible_example :
    (memory_audit.is_visible (λ _. 0) 7 ≡ post_visible) ⊎ Approved memory_audit 7 two_submissions
unfolding handle_all handle process
handle_all-visible_example = handle_all-visible memory_audit-laws two_submissions (λ _. 0) 7 refl
