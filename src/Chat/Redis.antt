-- ===== src/Chat/Redis.antt =====
-- NETLIB/redis/redisDB.h and redisDB.cpp: the messages that wait for a user, a set for each. Redis is a
-- parameter.
use xjblg.Base.{ℕ, ◌≡◌, Bool, false, ◌&&◌, ◌||◌, List, [], ◌∷◌, ◌++◌, length, ltb, if◌then◌else◌}
use xjblg.Base.Text.{Text, str_eq}

unfoldable pub is_member : Text → List Text → Bool
is_member m [] = false
is_member m (x ∷ xs) = str_eq x m || is_member m xs

-- What the program relies on of Redis: SADD adds an element to the set of a key, SMEMBERS lists a set
-- in some order, SCARD counts it, EXISTS tells whether it has an element, and DEL empties it.
pub record Redis : Type 1 where
  pub Store : Type 0
  pub sadd : Text → Text → Store → Store
  pub smembers : Text → Store → List Text
  pub scard : Text → Store → ℕ
  pub exists : Text → Store → Bool
  pub del : Text → Store → Store
  pub adds :
      (key element k e : Text) (s : Store)
      → is_member e (smembers k (sadd key element s))
        ≡ ((str_eq key k && str_eq element e) || is_member e (smembers k s))
  pub deletes :
      (key k : Text) (s : Store)
      → smembers k (del key s) ≡ (if str_eq key k then [] else smembers k s)
  pub counts : (k : Text) (s : Store) → scard k s ≡ length (smembers k s)
  pub knows : (k : Text) (s : Store) → exists k s ≡ ltb 0 (length (smembers k s))

module _ (redis : Redis) where
  open redis use {Store, sadd, smembers, scard, exists, del}

  unfoldable pub cache_message : Text → Text → Store → Store
  cache_message user message s = sadd user message s

  -- The messages are put behind those of `v`.
  unfoldable pub get_cache_message : List Text → Text → Store → List Text
  get_cache_message v user s = if exists user s then v ++ smembers user s else v

  unfoldable pub get_cache_message_size : Text → Store → ℕ
  get_cache_message_size user s = scard user s

  unfoldable pub remove_all_cache_messages : Text → Store → Store
  remove_all_cache_messages user s = del user s
