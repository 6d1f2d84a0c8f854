-- ===== src/Chat/Server/Passwords.antt =====
-- Who may log in to the chat server: `loginValid` prints the rows that the database finds and parses them.
use xjblg.Base.{◌≡◌, refl, Bool, false, not, some, List, [], ◌∷◌, ◌++◌}
use xjblg.Base.Text.{Text, Lacks, str_eq}
use xjblg.Base.Bytes.{bytes, encode_char}
use xjblg.Base.Dict
use xjblg.Chat.Exec.{pure, gets, lift, modify, ◌>>=◌}
use xjblg.Chat.Model.{
  Mysql, UserModel, Row, userid_key, username_key, no_user, user_text, execute, query, get_string,
  user_answer, valid_user,
}
use xjblg.Chat.Model.Answers.{parse_json-user_text, parse_json-no_user}
use xjblg.Chat.Server.{World, Server, with_model, on_model}
use xjblg.Chat.Server.Login.{names_user, read_user, login_valid}

-- No row, or one row with an id and a name; and whether that is a user, whose id is not "0".
pub data Finds : List Row → Bool → Type 0 where
  nobody : Finds [] false
  somebody :
      (row : Row) (id name : Text)
      → Dict.lookup userid_key row ≡ some id
      → Dict.lookup username_key row ≡ some name
      → Lacks b'"' id
      → Lacks b'"' name
      → Finds (row ∷ []) (not (str_eq id (b'0' ∷ [])))

-- The statement of `validUser`.
abbrev pub login_statement : Text → Text → Text
login_statement user password =
    bytes "select userid, username from users where userid=\""
    ++ (user ++ (bytes "\" and password=\"" ++ (password ++ bytes "\"")))

-- The printed answer, parsed again, and the look at "userid".
module _ (w : World) (s : Server w) where
  read_nobody :
      read_user w no_user s
      ≡ some (false, record s { json_item = Dict.insert userid_key (b'0' ∷ []) s.json_item })
  unfolding read_user ◌>>=◌ lift gets modify pure names_user bytes encode_char str_eq userid_key
  read_nobody = rw (
    parse_json-no_user s.json_item,
    Dict.lookup-insert userid_key userid_key (b'0' ∷ []) s.json_item,
  )

  read_somebody :
      (id name : Text)
      → Lacks b'"' id
      → Lacks b'"' name
      → read_user w (user_text id name) s
        ≡ some (
          not (str_eq id (b'0' ∷ [])),
          record s {
            json_item = Dict.insert username_key name (Dict.insert userid_key id s.json_item);
          },
        )
  unfolding read_user ◌>>=◌ lift gets modify pure names_user bytes encode_char str_eq userid_key
      username_key
  read_somebody id name q q' =
      let items = Dict.insert userid_key id s.json_item in
      rw (
        parse_json-user_text id name s.json_item q q',
        Dict.lookup-insert username_key userid_key name items,
        Dict.lookup-insert userid_key userid_key id s.json_item,
      )

module _ (mysql : Mysql) (m : UserModel mysql) where
  open mysql use {Db, run}

  query_lem :
      (sql : Text) (rows : List Row) (db' : Db)
      → run sql m.db ≡ some (some rows, db')
      → query mysql sql m ≡ some (rows, record m { db = db' })
  unfolding query execute ◌>>=◌ lift
  query_lem sql rows db' e = rw (execute, e) refl

module _ (w : World) (user password : Text) (s : Server w) where
  -- `loginValid` returns for every statement that finds no row, or one row with an id and a name without a
  -- '"': it answers whether a user with another id than "0" was found, and sends nothing.
  pub login_valid_decides :
      (db' : w.mysql.Db) (rows : List Row) (b : Bool)
      → w.mysql.run (login_statement user password) s.model.db ≡ some (some rows, db')
      → Finds rows b
      → (s' : Server w) × (login_valid w user password s ≡ some (b, s')) × (s'.effects ≡ s.effects)
  unfolding login_valid on_model with_model valid_user user_answer get_string ◌>>=◌ lift modify pure
  login_valid_decides db' rows b e nobody =
      let t : Server w = record s { model = record s.model { db = db' } } in
      let r : Server w = record t { json_item = Dict.insert userid_key (b'0' ∷ []) s.json_item } in
      (
        r,
        rw (query_lem w.mysql s.model (login_statement user password) [] db' e) (read_nobody w t),
        refl,
      )
  login_valid_decides db' rows b e (somebody row id name has_id has_name q q') =
      let t : Server w = record s {
        model = record s.model { db = db'; user_id = id; username = name };
      } in
      let r : Server w = record t {
        json_item = Dict.insert username_key name (Dict.insert userid_key id s.json_item);
      } in
      (
        r,
        rw
            (
              query_lem w.mysql s.model (login_statement user password) (row ∷ []) db' e,
              has_id,
              has_name,
            )
            (read_somebody w t id name q q'),
        refl,
      )
