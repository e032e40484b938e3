-- ===== src/Events.antt =====
-- internal/event/types.go: the envelope and the payloads of the events. A payload travels as JSON;
-- here it is the record itself.
use cooking_platform.Prelude.{ℕ}
use cooking_platform.Prelude.Text.{Bytes, codes}

pub data Payload : Type 0 where
  -- user, post, author
  like_event unlike_event : ℕ → ℕ → ℕ → Payload
  -- follower, followed
  follow_event unfollow_event : ℕ → ℕ → Payload
  -- post, author, scene tag
  post_event : ℕ → ℕ → ℕ → Payload
  -- post, author
  post_deleted_event : ℕ → ℕ → Payload
  -- post, viewer, masked address
  pv_event : ℕ → ℕ → Bytes → Payload
  -- post, author, audit status
  audit_event : ℕ → ℕ → ℕ → Payload

-- `Event`; the payloads carry the same id and time again
pub record Event : Type 0 where
  pub id : Bytes
  pub topic : Bytes
  pub timestamp : ℕ
  pub payload : Payload

abbrev pub topic_like : Bytes
topic_like = codes "event.like"

abbrev pub topic_unlike : Bytes
topic_unlike = codes "event.unlike"

abbrev pub topic_pv : Bytes
topic_pv = codes "event.pv"

abbrev pub topic_audit : Bytes
topic_audit = codes "event.audit"

abbrev pub topic_post : Bytes
topic_post = codes "event.post"

abbrev pub topic_post_deleted : Bytes
topic_post_deleted = codes "event.post.deleted"

abbrev pub topic_follow : Bytes
topic_follow = codes "event.follow"

abbrev pub topic_unfollow : Bytes
topic_unfollow = codes "event.unfollow"

-- what `uuid.NewString()` and `time.Now().UnixMilli()` return for one event
pub record Stamp : Type 0 where
  pub id : Bytes
  pub now : ℕ
