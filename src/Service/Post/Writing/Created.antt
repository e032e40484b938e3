-- ===== src/Service/Post/Writing/Created.antt =====
-- What a successful `Create` has checked, stored and told.
use cooking_platform.Prelude.{
  ℕ, suc, ◌+◌, ◌%◌, ◌<◌, ◌≤◌, ◌≡◌, refl, ap, sym, ◌∙◌, true, not, List, [], ◌∷◌, ◌++◌, append_assoc,
  arith, ltb, length,
}
use cooking_platform.Prelude.Text.{codes}
use cooking_platform.Strings.{trim_space}
use cooking_platform.Oss.{is_allowed_url}
use cooking_platform.Errcode.{wrapped}
use cooking_platform.Action.{require, require-eq-ok, ok, Action, wrap, pure, bind-eq-ok}
use cooking_platform.Events.{Stamp, Event, post_event, audit_event}
use cooking_platform.Model.{Post, PostStep}
use cooking_platform.Model.SceneTag.{is_valid}
use cooking_platform.Cache.Marker.{mark}
use cooking_platform.Repository.Posts.{PostTable, insert_any, with_post_id, create_with_steps}
use cooking_platform.Repository.Posts
use cooking_platform.Service.World.{World, in_db, in_db-eq-ok}
use cooking_platform.Service.Post.{PostEnv, posted, audit_requested}
use cooking_platform.Service.Post.Writing.{
  PostStepReq, CreatePostReq, CreatePostResp, is_empty, steps_allowed, build_steps, new_post,
  create_resp, validate, insert_post, create,
}

-- What the ORM documents of a transaction that is committed: its function returned nil.
pub record TransactionLaws {D : Type 0} (t : PostTable D) : Type 0 where
  pub commits :
      (m : Action D Post) (d d' : D) (p : Post)
      → t.transaction m d ≡ (ok p, d')
      → (d'' : D) × (m d ≡ (ok p, d''))

-- the row that a request asks for, under an id
abbrev pub requested : ℕ → ℕ → CreatePostReq → ℕ → Post
requested now user_id req id = record {
  id = id;
  user_id = user_id;
  title = trim_space req.title;
  content = req.content;
  scene_tag = req.scene_tag;
  cook_duration = 0;
  cover_url = req.cover_url;
  like_count = 0;
  view_count = 0;
  is_visible = 0;
  audit_status = 0;
  audit_remark = [];
  created_at = now;
  updated_at = now;
}

-- the rows of the steps of a post, numbered
abbrev pub numbered : ℕ → ℕ → ℕ → List PostStepReq → List PostStep
numbered now post_id n [] = []
numbered now post_id n (st ∷ steps) =
    record {
      id = 0;
      post_id = post_id;
      step_no = n;
      text = st.text;
      image_urls = st.image_urls;
      created_at = now;
    }
    ∷ numbered now post_id (n + 1) steps

-- the number of a step fits a byte
build_steps-numbered :
    (now post_id i : ℕ) (steps : List PostStepReq)
    → i + length steps < 256
    → with_post_id post_id (build_steps now i steps) ≡ numbered now post_id (i + 1) steps
unfolding build_steps
build_steps-numbered now post_id i [] h = refl
build_steps-numbered now post_id i (st ∷ steps) h =
    let rest = build_steps-numbered now post_id (i + 1) steps (omega (arith, h)) in
    let this : suc i % 256 ≡ i + 1 = omega (arith, h) in
    let next : suc i ≡ i + 1 = omega arith in rw (this, next, rest) refl

not_longer : (most n : ℕ) → not (ltb most n) ≡ true → n ≤ most
not_longer most n h = ground (arith, h)

-- the two events that tell of a new post
abbrev pub created_events : Stamp → Stamp → ℕ → ℕ → ℕ → List Event
created_events first second id user_id scene =
    record {
      id = first.id;
      topic = codes "event.post";
      timestamp = first.now;
      payload = post_event id user_id scene;
    }
    ∷ record {
      id = second.id;
      topic = codes "event.audit";
      timestamp = second.now;
      payload = audit_event id user_id 0;
    }
    ∷ []

module _ {R D : Type 0} (env : PostEnv R D) where
  -- what the validation accepts
  abbrev pub Acceptable : CreatePostReq → Type 0
  Acceptable req =
      (is_valid req.scene_tag ≡ true)
      × (not (is_empty (trim_space req.title)) ≡ true)
      × (is_allowed_url req.cover_url env.url_prefix ≡ true)
      × (not (ltb 30 (length req.steps)) ≡ true)
      × (steps_allowed env.url_prefix req.steps ≡ true)

  validate-eq-ok :
      (req : CreatePostReq) (w w' : World R D)
      → validate env req w ≡ (ok tt, w')
      → Acceptable req × (w ≡ w')
  unfolding validate
  validate-eq-ok req w w' h =
      let (x1, w1, e1, h1) = bind-eq-ok (require (is_valid req.scene_tag) _) _ w w' tt h in
      let (a1, s1) = require-eq-ok (is_valid req.scene_tag) _ w w1 e1 in
      let (x2, w2, e2, h2) =
        bind-eq-ok (require (not (is_empty (trim_space req.title))) _) _ w1 w' tt h1 in
      let (a2, s2) = require-eq-ok (not (is_empty (trim_space req.title))) _ w1 w2 e2 in
      let (x3, w3, e3, h3) =
        bind-eq-ok (require (is_allowed_url req.cover_url env.url_prefix) _) _ w2 w' tt h2 in
      let (a3, s3) = require-eq-ok (is_allowed_url req.cover_url env.url_prefix) _ w2 w3 e3 in
      let (x4, w4, e4, h4) =
        bind-eq-ok (require (not (ltb 30 (length req.steps))) _) _ w3 w' tt h3 in
      let (a4, s4) = require-eq-ok (not (ltb 30 (length req.steps))) _ w3 w4 e4 in
      let (a5, s5) = require-eq-ok (steps_allowed env.url_prefix req.steps) _ w4 w' h4 in
      ((a1, a2, a3, a4, a5), s1 ∙ s2 ∙ s3 ∙ s4 ∙ s5)

  -- the steps of a post, if it has any, were inserted
  abbrev pub StepsInserted : ℕ → ℕ → List PostStepReq → D → Type 0
  StepsInserted now post_id [] d = Unit {0}
  StepsInserted now post_id (st ∷ steps) d =
      (d' : D) × (env.posts.insert_steps (numbered now post_id 1 (st ∷ steps)) d ≡ (ok tt, d'))

  -- the ORM inserted a row and gave it an id, and then the steps under that id
  abbrev pub Inserted : ℕ → Post → List PostStepReq → ℕ → D → Type 0
  Inserted now row steps id d =
      (d' : D) × (env.posts.insert row d ≡ (ok id, d')) × StepsInserted now id steps d'

  with_its_id :
      (p q : Post) (id : ℕ) (u d : D)
      → pure {S = D} (record p { id = id }) u ≡ (ok q, d)
      → (q ≡ record p { id = q.id }) × (id ≡ q.id)
  with_its_id p q id u d h = (ground (arith, h), ground (arith, h))

  insert_post-Inserted :
      TransactionLaws env.posts
      → (now : ℕ) (p q : Post) (steps : List PostStepReq) (d d' : D) → length steps ≤ 30
      → insert_post env now p steps d ≡ (ok q, d')
      → (q ≡ record p { id = q.id }) × Inserted now p steps q.id d
  unfolding Posts.create create_with_steps build_steps
  insert_post-Inserted laws now p q [] d d' few h =
      let (id, u, e, h') = bind-eq-ok (env.posts.insert p) _ d d' q h in
      let (same, its_id) = with_its_id p q id u d' h' in
      (same, (u, e ∙ ap (λ n. (ok n, u)) its_id, tt))
  insert_post-Inserted laws now p q (st ∷ steps) d d' few h =
      let (d'', ran) = laws.commits _ d d' q h in
      let (id, u, e, h1) = bind-eq-ok (env.posts.insert p) _ d d'' q ran in
      let (x, v, e2, h2) =
        bind-eq-ok (insert_any env.posts (with_post_id id (build_steps now 0 (st ∷ steps)))) _ u d''
          q h1 in
      let (same, its_id) = with_its_id p q id v d'' h2 in
      let rows : with_post_id id (build_steps now 0 (st ∷ steps))
          ≡ numbered now q.id 1 (st ∷ steps) =
        build_steps-numbered now id 0 (st ∷ steps) (omega (arith, few))
        ∙ ap (λ n. numbered now n 1 (st ∷ steps)) its_id in
      (
        same,
        (
          u,
          e ∙ ap (λ n. (ok n, u)) its_id,
          (v, ap (λ l. env.posts.insert_steps l u) (sym rows) ∙ e2),
        ),
      )

  -- Where a transaction that is committed ran its function: a `Create` that succeeds had a known scene, a
  -- title that is not blank, at most 30 steps and only allowed URLs. The ORM inserted the row of the
  -- request, by the user, and gave it an id: its title trimmed, its content, scene and cover as they
  -- are, no likes and no views, invisible and pending, both times the present; and then the steps in
  -- their order, numbered from 1, under that id. The response has the id, pending and invisible, and
  -- the time. The bus was handed the post event of that id, user and scene and then the audit event
  -- of that id and user, pending, and nothing else.
  pub create-eq-ok :
      TransactionLaws env.posts
      → (now : ℕ) (first second : Stamp) (user_id : ℕ) (req : CreatePostReq) (w w' : World R D)
        (r : CreatePostResp)
      → create env now first second user_id req w ≡ (ok r, w')
      → Acceptable req
        × ((id : ℕ) × (insert_post env now (requested now user_id req 0) req.steps w.db
              ≡ (ok (requested now user_id req id), w'.db))
            × Inserted now (requested now user_id req 0) req.steps id w.db
            × (r ≡ record { post_id = id; audit_status = 0; is_visible = 0; created_at = now })
            × (w'.outbox ≡ w.outbox ++ created_events first second id user_id req.scene_tag))
  unfolding create mark posted audit_requested
  create-eq-ok laws now first second user_id req w w' r h =
      let row = new_post now user_id req in
      let (x, a, e1, h1) = bind-eq-ok (validate env req) _ w w' r h in
      let (fits, stays) = validate-eq-ok req w a e1 in
      let (p, b, e2, h2) =
        bind-eq-ok (wrap (in_db (insert_post env now row req.steps))) _ a w' r h1 in
      let (inserted, redis, out) =
        in_db-eq-ok wrapped (insert_post env now row req.steps) a b p e2 in
      let start : w.db ≡ a.db = ap (λ u. u.db) stays in
      let told : w.outbox ≡ a.outbox = ap (λ u. u.outbox) stays in
      let done : w'.db ≡ b.db = ap (λ u. u.1.db) (sym h2) in
      let in_all : insert_post env now row req.steps w.db ≡ (ok p, w'.db) =
        ap (insert_post env now row req.steps) start ∙ inserted ∙ ap (λ d. (ok p, d)) (sym done) in
      let few = not_longer 30 (length req.steps) fits.3 in
      let (row_is, stored) = insert_post-Inserted laws now row p req.steps w.db w'.db few in_all in
      let telling : posted first p ∷ audit_requested second p ∷ []
          ≡ created_events first second p.id user_id req.scene_tag =
        rw row_is refl in
      (
        fits,
        (
          p.id,
          in_all ∙ ap (λ q. (ok q, w'.db)) row_is,
          stored,
          sym (ground (arith, ap (λ u. u.0) h2)) ∙ ap create_resp row_is,
          ap (λ u. u.1.outbox) (sym h2)
              ∙ append_assoc b.outbox (posted first p ∷ []) (audit_requested second p ∷ [])
              ∙ ap (λ l. l ++ posted first p ∷ audit_requested second p ∷ []) (out ∙ sym told)
              ∙ ap (λ l. w.outbox ++ l) telling,
        ),
      )
