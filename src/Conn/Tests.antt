-- ===== src/Conn/Tests.antt =====
-- Connection strings.
use pgwarden.Prelude.{
  ◌≡◌, refl, Bool, true, false, Option, none, some, Result, ok, err, List, [], ◌∷◌, Bytes, codes,
  is_empty,
}
use pgwarden.Conn.{
  ConnInfo, Uri, parse_conn_string, parse_keyword_conn_string, keyword_string, with_endpoint,
  with_database,
}
use pgwarden.Conn.RoundTrip.{IsPlain, info_of, keyword_round_trip}

abbrev info : ConnInfo
info = info_of (codes "db1") (codes "5432") (codes "app") (codes "u") (codes "p=1")

printed : keyword_string info ≡ codes "host=db1 port=5432 dbname=app user=u password=p=1"
unfolding keyword_string pgwarden.Go.Strings.join pgwarden.Conn.keyword_parts
    pgwarden.Conn.extra_parts
printed = refl

moved :
    with_endpoint info (codes " db2 ") 6000 []
    ≡ codes "host=db2 port=6000 dbname=app user=u password=p=1"
unfolding with_endpoint keyword_string pgwarden.Go.Strings.join pgwarden.Conn.keyword_parts
    pgwarden.Go.Strings.trim pgwarden.Go.Strings.trim_space pgwarden.Go.Strconv.itoa
    pgwarden.Conn.extra_parts
moved = refl

-- A space in a password: what follows it is read as another keyword.
injected :
    parse_keyword_conn_string
      (keyword_string (info_of (codes "a") (codes "1") (codes "d") (codes "u") (codes "p host=b")))
    ≡ ok (info_of (codes "b") (codes "1") (codes "d") (codes "u") (codes "p"))
unfolding parse_keyword_conn_string pgwarden.Conn.check_keywords pgwarden.Conn.read_parts
    pgwarden.Go.Strings.fields pgwarden.Go.Strings.cons_field keyword_string
    pgwarden.Go.Strings.join pgwarden.Conn.keyword_parts pgwarden.Conn.extra_parts
    pgwarden.Conn.read_part pgwarden.Go.Strings.cut pgwarden.Go.Strings.before_cut
    pgwarden.Conn.set_key pgwarden.Prelude.text_eq pgwarden.Go.Strings.trim
    pgwarden.Go.Strings.trim_space pgwarden.Conn.is_quote
injected = refl

keyword_round_trip_example : parse_keyword_conn_string (keyword_string info) ≡ ok info
unfolding IsPlain pgwarden.Go.Strings.is_space pgwarden.Go.Strings.space_width
    pgwarden.Go.Strings.wide_space pgwarden.Go.Strings.is_wide_space2
    pgwarden.Go.Strings.is_wide_space3 pgwarden.Conn.Spaces.has_space pgwarden.Conn.is_quote
keyword_round_trip_example =
    keyword_round_trip (codes "db1") (codes "5432") (codes "app") (codes "u") (codes "p=1")
      (refl, refl) (refl, refl) (refl, refl) (refl, refl) (refl, refl) refl refl refl
