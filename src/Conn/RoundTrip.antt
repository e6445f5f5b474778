-- ===== src/Conn/RoundTrip.antt =====
-- Reading connection strings that the program prints (internal/integration/postgres/connstring.go).
use pgwarden.Prelude.{
  not, ◌&&◌, ==_iff, all, ltb, true, ◌≡◌, refl, ◌∙◌, false, ok, List, [], ◌∷◌, ◌++◌, Bytes, codes,
  text_eq, is_empty, any, arith, All,
}
use pgwarden.Go.Strings.{
  trim, trim_left, trim_right, trim_space, is_space, cut, before_cut, fields, fields_from,
  cons_field, join, is_wide_space2, is_wide_space3, wide_space, space_width, skip_spaces,
  cut_spaces,
}
use pgwarden.Conn.{
  ConnInfo, set_key, is_quote, read_part, read_parts, check_keywords, parse_keyword_conn_string,
  keyword_parts, keyword_string, extra_parts,
}
use pgwarden.Conn.Spaces.{
  trim-none, has_space, space_width-blank, wide_space-ascii, solid, trim_space-none,
}

-- A text without spaces and quotes.
unfoldable pub IsPlain : Bytes → Type 0
IsPlain s = (has_space s ≡ false) × (any is_quote s ≡ false)

-- A text that is a field of its own.
IsWord : Bytes → Type 0
IsWord s = (is_empty s ≡ false) × (has_space s ≡ false)

-- The name of a keyword does not change whether there is a space.
has_space-append :
    (key v : Bytes)
    → all (λ c. ltb c 128 && not (is_space c)) key ≡ true
    → has_space v ≡ false
    → has_space (key ++ v) ≡ false
unfolding has_space space_width
has_space-append [] v h k = k
has_space-append (c ∷ key) v h k =
    rw
      (
        wide_space-ascii c (key ++ v) (ground (arith, h)),
        has_space-append key v (ground (arith, h)) k,
      )
      (ground (arith, h))

fields_from-word : (w : Bytes) → has_space w ≡ false → fields_from 0 w ≡ (w, [])
unfolding fields_from has_space
fields_from-word [] h = refl
fields_from-word (c ∷ w) h =
    let (zero_wide, rest) = solid (has_space w) (space_width c w) h in
    let none_wide : space_width c w ≡ 0 = (==_iff (space_width c w) 0).0 zero_wide in
    rw none_wide (rw (fields_from-word w rest) refl)

fields_from-space :
    (w rest : Bytes) → has_space w ≡ false → fields_from 0 (w ++ (32 ∷ rest)) ≡ (w, fields rest)
unfolding fields_from fields has_space
fields_from-space [] rest h = refl
fields_from-space (c ∷ w) rest h =
    let (zero_wide, more) = solid (has_space w) (space_width c w) h in
    let none_wide : space_width c w ≡ 0 = (==_iff (space_width c w) 0).0 zero_wide in
    rw (space_width-blank c w rest, none_wide) (rw (fields_from-space w rest more) refl)

cons_field-word : (w : Bytes) (fs : List Bytes) → is_empty w ≡ false → cons_field w fs ≡ w ∷ fs
unfolding cons_field
cons_field-word [] fs h = absurd (ground arith)
cons_field-word (c ∷ w) fs h = refl

fields-join : (words : List Bytes) → All IsWord words → fields (join (codes " ") words) ≡ words
unfolding fields join IsWord cons_field fields_from
fields-join [] h = refl
fields-join (w ∷ []) h = rw (fields_from-word w h.0.1) (cons_field-word w [] h.0.0)
fields-join (w ∷ v ∷ words) h =
    rw (fields_from-space w (join (codes " ") (v ∷ words)) h.0.1)
      (rw (fields-join (v ∷ words) h.1) (cons_field-word w (v ∷ words) h.0.0))

read-host :
    (v : Bytes) (info : ConnInfo)
    → IsPlain v
    → read_part (cut b'=' (codes "host" ++ (b'=' ∷ v))) info ≡ record info { host = v }
unfolding read_part cut before_cut set_key text_eq trim_space skip_spaces cut_spaces space_width
    wide_space is_wide_space2 is_wide_space3 trim trim_left trim_right is_space IsPlain
read-host v info h = rw (trim_space-none v h.0) (rw (trim-none is_quote v h.1) refl)

read-port :
    (v : Bytes) (info : ConnInfo)
    → IsPlain v
    → read_part (cut b'=' (codes "port" ++ (b'=' ∷ v))) info ≡ record info { port = v }
unfolding read_part cut before_cut set_key text_eq trim_space skip_spaces cut_spaces space_width
    wide_space is_wide_space2 is_wide_space3 trim trim_left trim_right is_space IsPlain
read-port v info h = rw (trim_space-none v h.0) (rw (trim-none is_quote v h.1) refl)

read-user :
    (v : Bytes) (info : ConnInfo)
    → IsPlain v
    → read_part (cut b'=' (codes "user" ++ (b'=' ∷ v))) info ≡ record info { user = v }
unfolding read_part cut before_cut set_key text_eq trim_space skip_spaces cut_spaces space_width
    wide_space is_wide_space2 is_wide_space3 trim trim_left trim_right is_space IsPlain
read-user v info h = rw (trim_space-none v h.0) (rw (trim-none is_quote v h.1) refl)

read-password :
    (v : Bytes) (info : ConnInfo)
    → IsPlain v
    → read_part (cut b'=' (codes "password" ++ (b'=' ∷ v))) info ≡ record info { password = v }
unfolding read_part cut before_cut set_key text_eq trim_space skip_spaces cut_spaces space_width
    wide_space is_wide_space2 is_wide_space3 trim trim_left trim_right is_space IsPlain
read-password v info h = rw (trim_space-none v h.0) (rw (trim-none is_quote v h.1) refl)

read-database :
    (v : Bytes) (info : ConnInfo)
    → IsPlain v
    → read_part (cut b'=' (codes "dbname" ++ (b'=' ∷ v))) info ≡ record info { database = v }
unfolding read_part cut before_cut set_key text_eq trim_space skip_spaces cut_spaces space_width
    wide_space is_wide_space2 is_wide_space3 trim trim_left trim_right is_space IsPlain
read-database v info h = rw (trim_space-none v h.0) (rw (trim-none is_quote v h.1) refl)

-- The five texts of a connection, in the order in which they are printed.
abbrev pub info_of : Bytes → Bytes → Bytes → Bytes → Bytes → ConnInfo
info_of h p d u w = record {
  host = h;
  port = p;
  user = u;
  password = w;
  database = d;
  raw_query = [];
  extra = [];
}

module _ (h p d : Bytes) (ph : IsPlain h) (pp : IsPlain p) (pd : IsPlain d) where
  read-endpoint :
      (parts : List Bytes)
      → read_parts
          ((codes "host" ++ (b'=' ∷ h))
            ∷ (codes "port" ++ (b'=' ∷ p))
            ∷ (codes "dbname" ++ (b'=' ∷ d))
            ∷ parts)
          (info_of [] [] [] [] [])
        ≡ read_parts parts (info_of h p d [] [])
  unfolding read_parts
  read-endpoint parts = rw (read-host h (info_of [] [] [] [] []) ph) (
      rw (read-port p (info_of h [] [] [] []) pp)
        (rw (read-database d (info_of h p [] [] []) pd) refl))

  read-keywords :
      (u w : Bytes)
      → IsPlain u
      → IsPlain w
      → read_parts (keyword_parts (info_of h p d u w)) (info_of [] [] [] [] []) ≡ info_of h p d u w
  unfolding keyword_parts extra_parts read_parts
  read-keywords [] [] pu pw = read-endpoint []
  read-keywords [] (y ∷ w) pu pw =
      read-endpoint ((codes "password" ++ (b'=' ∷ (y ∷ w))) ∷ [])
      ∙ rw (read-password (y ∷ w) (info_of h p d [] []) pw) refl
  read-keywords (x ∷ u) [] pu pw =
      read-endpoint ((codes "user" ++ (b'=' ∷ (x ∷ u))) ∷ [])
      ∙ rw (read-user (x ∷ u) (info_of h p d [] []) pu) refl
  read-keywords (x ∷ u) (y ∷ w) pu pw =
      read-endpoint
        ((codes "user" ++ (b'=' ∷ (x ∷ u))) ∷ (codes "password" ++ (b'=' ∷ (y ∷ w))) ∷ [])
      ∙ rw (read-user (x ∷ u) (info_of h p d [] []) pu)
          (rw (read-password (y ∷ w) (info_of h p d (x ∷ u) []) pw) refl)

  keyword-IsWord :
      (key v : Bytes)
      → is_empty key ≡ false
      → all (λ c. ltb c 128 && not (is_space c)) key ≡ true
      → IsPlain v
      → IsWord (key ++ (b'=' ∷ v))
  unfolding IsWord IsPlain
  keyword-IsWord [] v e h pv = absurd (ground arith)
  keyword-IsWord (c ∷ key) v e h pv = (
    refl,
    has_space-append (c ∷ key) (b'=' ∷ v) h
        (has_space-append (b'=' ∷ []) v (unfold is_space in refl) pv.0),
  )

  host_words :
      (parts : List Bytes)
      → All IsWord parts
      → All IsWord (
          (codes "host" ++ (b'=' ∷ h))
          ∷ (codes "port" ++ (b'=' ∷ p))
          ∷ (codes "dbname" ++ (b'=' ∷ d))
          ∷ parts)
  unfolding is_space
  host_words parts k = (
    keyword-IsWord (codes "host") h refl refl ph,
    (
      keyword-IsWord (codes "port") p refl refl pp,
      (keyword-IsWord (codes "dbname") d refl refl pd, k),
    ),
  )

  keywords-IsWord :
      (u w : Bytes) → IsPlain u → IsPlain w → All IsWord (keyword_parts (info_of h p d u w))
  unfolding keyword_parts extra_parts is_space
  keywords-IsWord [] [] pu pw = host_words [] tt
  keywords-IsWord [] (y ∷ w) pu pw =
      host_words ((codes "password" ++ (b'=' ∷ (y ∷ w))) ∷ [])
        (keyword-IsWord (codes "password") (y ∷ w) refl refl pw, tt)
  keywords-IsWord (x ∷ u) [] pu pw =
      host_words ((codes "user" ++ (b'=' ∷ (x ∷ u))) ∷ [])
        (keyword-IsWord (codes "user") (x ∷ u) refl refl pu, tt)
  keywords-IsWord (x ∷ u) (y ∷ w) pu pw =
      host_words ((codes "user" ++ (b'=' ∷ (x ∷ u))) ∷ (codes "password" ++ (b'=' ∷ (y ∷ w))) ∷ [])
        (
          keyword-IsWord (codes "user") (x ∷ u) refl refl pu,
          (keyword-IsWord (codes "password") (y ∷ w) refl refl pw, tt),
        )

-- The keyword form reads back: what is printed for a host, a port, a database, a user and a password,
-- the last two perhaps empty, is read as the same five, if they hold no spaces, also beyond ASCII, and no
-- quotes, and the first three are not empty.
pub keyword_round_trip :
    (h p d u w : Bytes)
    → IsPlain h
    → IsPlain p
    → IsPlain d
    → IsPlain u
    → IsPlain w
    → is_empty h ≡ false
    → is_empty p ≡ false
    → is_empty d ≡ false
    → parse_keyword_conn_string (keyword_string (info_of h p d u w)) ≡ ok (info_of h p d u w)
unfolding parse_keyword_conn_string keyword_string check_keywords
keyword_round_trip h p d u w ph pp pd pu pw eh ep ed =
    rw (fields-join (keyword_parts (info_of h p d u w)) (keywords-IsWord h p d ph pp pd u w pu pw))
      (rw (read-keywords h p d ph pp pd u w pu pw) (rw (eh, ed, ep) refl))
