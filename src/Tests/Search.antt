-- ===== src/Tests/Search.antt =====
-- A run of the search service, with the theorem applied to it.
use cooking_platform.Prelude.{
  ℕ, ◌≡◌, ◌≢◌, ◌≤◌, ◌⊎◌, refl, Bool, false, All, false, none, [], length, elem,
}
use cooking_platform.Prelude.Int.{pos}
use cooking_platform.Prelude.Text.{codes}
use cooking_platform.Errcode.{GoError}
use cooking_platform.Action.{ok, err}
use cooking_platform.Strings.Runes.{
  Runes, trim_left, trim_right, trim_space, parts, fields, join_words,
}
use cooking_platform.Service.World.{World}
use cooking_platform.Service.Search.{
  SearchEnv, SearchQuery, normalise_keyword, drop_operators, sanitise_boolean, search_page, search,
}
use cooking_platform.Service.Search.Keyword.{search-safe}
use cooking_platform.Tests.MemoryRedis.{memory}
use cooking_platform.Tests.MemoryRedis
use cooking_platform.Tests.MemoryUsers.{memory_users}

abbrev env : SearchEnv MemoryRedis.Memory (ℕ → Bool)
env = record {
  select = λ q d. (ok [], d);
  users = memory_users;
  likes = memory;
  max_keyword_len = 9;
  boolean_operators = codes "+-<>()~*@";
}

-- white space at both ends, an operator, more than nine runes
cleaned :
    sanitise_boolean (codes "+-<>()~*@") (normalise_keyword 9 (codes "  red + pork stew"))
    ≡ codes "red por"
unfolding sanitise_boolean normalise_keyword drop_operators trim_space trim_left trim_right parts
    fields join_words
cleaned = refl

abbrev soups : SearchQuery
soups = record { keyword = codes " +soup "; scene_tag = 0; cursor = codes "20"; size = pos 10 }

abbrev nothing_liked : World MemoryRedis.Memory (ℕ → Bool)
nothing_liked = record {
  redis = record { sets = λ k. []; ints = λ k. none };
  db = λ id. false;
  outbox = [];
}

search-safe_example :
    ((e : GoError) × (search env 7 soups nothing_liked ≡ (err e, nothing_liked)))
    ⊎ ((safe : Runes) × (offset size : ℕ) × (safe ≢ [])
        × (length safe ≤ 9)
        × All (λ c. (elem c (codes "+-<>()~*@") ≡ false) ⊎ (32 ≡ c)) safe
        × (1 ≤ size)
        × (size ≤ 50)
        × (search env 7 soups nothing_liked ≡ search_page env 7 safe 0 offset size nothing_liked))
search-safe_example = search-safe env 7 soups nothing_liked
