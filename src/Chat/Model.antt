-- ===== src/Chat/Model.antt =====
-- NETLIB/application/chat/ChatModel.h and ChatModel.cpp: what the chat server asks the database for, and
-- NETLIB/mysql/mysqlDB.h, which hands a statement to MySQL. MySQL is a parameter.
pub mod Answers
use xjblg.Base.{Bool, true, false, Option, none, some, List, [], ◌∷◌, ◌++◌, if◌then◌else◌}
use xjblg.Base.Text.{Text, str_eq}
use xjblg.Base.Bytes.{bytes}
use xjblg.Base.Dict
use xjblg.Chat.Exec.{Exec, pure, raise, gets, lift, modify, ◌>>=◌, ◌>>◌}

-- A row of a result set: its columns by their names.
abbrev pub Row : Type 0
Row = List (Text × Text)

-- MySQL: the state of the database, and what a statement gives, `none` for an exception. A statement
-- that is no query gives no result set.
pub record Mysql : Type 1 where
  pub Db : Type 0
  pub run : Text → Db → Option (Option (List Row) × Db)

-- `NOTFRIEND`, `WEAKFRIEND` and `FRIEND`.
pub data FriendState : Type 0 where
  not_friend weak_friend friend : FriendState

unfoldable pub userid_key : Text
unfolding bytes
userid_key = bytes "userid"

unfoldable pub username_key : Text
unfolding bytes
username_key = bytes "username"

unfoldable pub state_key : Text
unfolding bytes
state_key = bytes "state"

-- {"userid":"0"}
unfoldable pub no_user : Text
unfolding bytes
no_user = bytes "{\"userid\":\"0\"}"

-- {"userid":"1111","username":"bm"}
unfoldable pub user_text : Text → Text → Text
unfolding bytes
user_text id name =
    bytes "{\"userid\":\"" ++ (id ++ (bytes "\",\"username\":\"" ++ (name ++ bytes "\"}")))

module _ (mysql : Mysql) where
  open mysql use {Db, run}

  -- The members that are written, and the database behind `MysqlDB`.
  pub record UserModel : Type 0 where
    pub user_id : Text
    pub username : Text
    pub db : Db

  -- `MysqlDB::execute`.
  unfoldable pub execute : Text → Exec UserModel (Option (List Row))
  execute sql m = elim (run sql m.db) [
    | none ↦ none
    | some (rows, db') ↦ some (rows, record m { db = db' })
  ]

  -- A statement whose result set is used; without one the program follows a null pointer.
  unfoldable pub query : Text → Exec UserModel (List Row)
  query sql = execute sql >>= lift

  -- A statement whose result set is not used.
  unfoldable pub command : Text → Exec UserModel (Unit {0})
  command sql = execute sql >>= λ _. pure tt

  unfoldable pub get_string : Text → Row → Exec UserModel Text
  get_string column row = lift (Dict.lookup column row)

  -- The text for the rows of a user: none, one, or more, which fails the assert.
  unfoldable pub user_answer : List Row → Exec UserModel Text
  user_answer [] = pure no_user
  user_answer (row ∷ []) = do
    id ← get_string userid_key row
    name ← get_string username_key row
    modify (λ (m : UserModel). record m { user_id = id; username = name })
    pure (user_text id name)
  user_answer (row ∷ other ∷ rows) = raise

  unfoldable pub get_user_info : Text → Exec UserModel Text
  unfolding bytes
  get_user_info user = do
    rows ←
        query (bytes "select userid, username from users where userid=\"" ++ (user ++ bytes "\""))
    user_answer rows

  unfoldable pub valid_user : Text → Text → Exec UserModel Text
  unfolding bytes
  valid_user user password = do
    rows ← query (
        bytes "select userid, username from users where userid=\""
        ++ (user ++ (bytes "\" and password=\"" ++ (password ++ bytes "\""))))
    user_answer rows

  -- Two columns of each row.
  unfoldable pub pairs_of : Text → Text → List Row → Exec UserModel (List (Text × Text))
  pairs_of a b [] = pure []
  pairs_of a b (row ∷ rows) = do
    x ← get_string a row
    y ← get_string b row
    rest ← pairs_of a b rows
    pure ((x, y) ∷ rest)

  unfoldable pub get_user_friends : Text → Exec UserModel (List (Text × Text))
  unfolding bytes
  get_user_friends user = do
    rows ← query (
        bytes
          "select userid, username from users where userid in (select user1 from friends where user2="
        ++ (user
            ++ (bytes " and state=1 union select user2 from friends where user1="
                ++ (user ++ bytes " and state=1)"))))
    pairs_of userid_key username_key rows

  -- The first row decides.
  unfoldable pub friend_state : List Row → Exec UserModel FriendState
  unfolding bytes
  friend_state [] = pure not_friend
  friend_state (row ∷ rows) = do
    state ← get_string state_key row
    pure (if str_eq state (bytes "1") then friend else weak_friend)

  unfoldable pub check_friend : Text → Text → Exec UserModel FriendState
  unfolding bytes
  check_friend user1 user2 = do
    rows ← query (
        bytes "select state from friends where user1="
        ++ (user1
            ++ (bytes " and user2="
                ++ (user2
                    ++ (bytes " union select state from friends where user2="
                        ++ (user1 ++ (bytes " and user1=" ++ user2)))))))
    friend_state rows

  unfoldable pub add_friend : Text → Text → Exec UserModel (Unit {0})
  unfolding bytes
  add_friend user1 user2 = command (
      bytes "insert into addFriends(applyUser,addedUser,state) values("
      ++ (user1 ++ (bytes "," ++ (user2 ++ bytes ",0)"))))

  -- The two ways round of a pair of friends, as a condition.
  unfoldable pub either_way : Text → Text → Text
  unfolding bytes
  either_way user other =
      bytes " where (user1="
      ++ (user
          ++ (bytes " and user2="
              ++ (other
                  ++ (bytes ") or (user1="
                      ++ (other ++ (bytes " and user2=" ++ (user ++ bytes ")")))))))

  unfoldable pub delete_friend : Text → Text → Exec UserModel (Unit {0})
  unfolding bytes
  delete_friend user other = command (bytes "update friends set state=0" ++ either_way user other)

  unfoldable pub check_request_of_add_friend : Text → Text → Exec UserModel Bool
  unfolding bytes
  check_request_of_add_friend user apply = do
    rows ← query (
        bytes "select state from addFriends where applyUser="
        ++ (apply ++ (bytes " and addedUser=" ++ (user ++ bytes " and state=0"))))
    pure (elim rows [ [] ↦ false | row ∷ rest ↦ true ])

  unfoldable pub refuse_request_of_add_friend : Text → Text → Exec UserModel (Unit {0})
  unfolding bytes
  refuse_request_of_add_friend user apply = command (
      bytes "update addFriends inner join (select autoID from addFriends where applyUser="
      ++ (apply
          ++ (bytes " and addedUser="
              ++ (user
                  ++ bytes
                      " and state=0 order by autoID desc limit 1) t on addFriends.autoID=t.autoID set state=2"))))

  -- What becomes of the friendship once the request is agreed to.
  unfoldable pub befriend : Text → Text → FriendState → Exec UserModel (Unit {0})
  unfolding bytes
  befriend user apply weak_friend =
      command (bytes "update friends set state=1" ++ either_way user apply)
  befriend user apply not_friend = command (
      bytes "insert into friends(user1,user2,state) values("
      ++ (user ++ (bytes "," ++ (apply ++ (bytes "," ++ bytes "1)")))))
  befriend user apply friend = pure tt

  unfoldable pub agree_request_of_add_friend : Text → Text → Exec UserModel (Unit {0})
  unfolding bytes
  agree_request_of_add_friend user apply = do
    command (
        bytes "update addFriends set state=1 where applyUser="
        ++ (apply ++ (bytes " and addedUser=" ++ user)))
    state ← check_friend user apply
    befriend user apply state

  unfoldable pub get_add_req_list : Text → Exec UserModel (List (Text × Text))
  unfolding bytes
  get_add_req_list user = do
    rows ← query (bytes "select addedUser,state from addFriends where applyUser=" ++ user)
    pairs_of (bytes "addedUser") state_key rows

  unfoldable pub get_added_req_list : Text → Exec UserModel (List (Text × Text))
  unfolding bytes
  get_added_req_list user = do
    rows ← query (bytes "select applyUser,state from addFriends where addedUser=" ++ user)
    pairs_of (bytes "applyUser") state_key rows
