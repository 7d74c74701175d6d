-- ===== src/Manifest/Load/Targets.antt =====
-- src/PafioManifest/Manifest.cpp: `ParseLib`, `ParseBins` and `ParseTests`.
use spio.Prelude.{
  Bytes, text, contains, is_empty, Bool, Option, none, some, List, [], ◌∷◌, ok, or_throw, throw_if,
  ◌≡◌, >>=-eq-ok, ok_injective, validation_error, throw_if-eq-ok,
}
use spio.Toml.{Toml, require_string}
use spio.Manifest.{LibTarget, BinTarget, TestTarget}
use spio.Manifest.Load.{
  validate_relative_path, lib_of, bins_of, tests_of, parse_bin_entries, parse_test_entries,
}
use spio.Manifest.Load.Form.{AreBins, AreTests, IsLib, ne_nil, relative_lem}

module _ (is_absolute : Bytes → Bool) (toml : Toml) where
  open toml use {Table, Node, as_table, entries}

  pub lib_of-IsLib :
      (t : Option Table) {l : Option LibTarget}
      → lib_of is_absolute toml t ≡ ok l
      → IsLib is_absolute l
  unfolding lib_of
  lib_of-IsLib none h = rw (← (ok_injective h)) tt
  lib_of-IsLib (some t) h =
      let (p, _, h1) = >>=-eq-ok (require_string toml t (text "path")) _ h in
      let (_, rel, h2) = >>=-eq-ok (validate_relative_path is_absolute p) _ h1 in
      rw (← (ok_injective h2)) (relative_lem is_absolute p rel)

  parse_bin_entries-AreBins :
      (seen : List Bytes) (nodes : List Node) {bs : List BinTarget}
      → parse_bin_entries is_absolute toml seen nodes ≡ ok bs
      → AreBins is_absolute seen bs
  unfolding parse_bin_entries
  parse_bin_entries-AreBins seen [] h = rw (← (ok_injective h)) tt
  parse_bin_entries-AreBins seen (node ∷ nodes) h =
      let (t, _, h1) = >>=-eq-ok (or_throw (as_table node) validation_error) _ h in
      let (name, _, h2) = >>=-eq-ok (require_string toml t (text "name")) _ h1 in
      let (p, _, h3) = >>=-eq-ok (require_string toml t (text "path")) _ h2 in
      let (_, a, h4) = >>=-eq-ok (throw_if (is_empty name) validation_error) _ h3 in
      let (_, rel, h5) = >>=-eq-ok (validate_relative_path is_absolute p) _ h4 in
      let (_, b, h6) = >>=-eq-ok (throw_if (contains name seen) validation_error) _ h5 in
      let (bs, rest, h7) =
        >>=-eq-ok (parse_bin_entries is_absolute toml (name ∷ seen) nodes) _ h6 in
      rw (← (ok_injective h7)) (
        ne_nil name (throw_if-eq-ok _ validation_error a),
        throw_if-eq-ok _ validation_error b,
        relative_lem is_absolute p rel,
        parse_bin_entries-AreBins (name ∷ seen) nodes rest,
      )

  pub bins_of-AreBins :
      (nodes : Option (List Node)) {ts : List BinTarget}
      → bins_of is_absolute toml nodes ≡ ok ts
      → AreBins is_absolute [] ts
  unfolding bins_of
  bins_of-AreBins none h = rw (← (ok_injective h)) tt
  bins_of-AreBins (some nodes) h = parse_bin_entries-AreBins [] nodes h

  parse_test_entries-AreTests :
      (seen : List Bytes) (nodes : List Node) {ts : List TestTarget}
      → parse_test_entries is_absolute toml seen nodes ≡ ok ts
      → AreTests is_absolute seen ts
  unfolding parse_test_entries
  parse_test_entries-AreTests seen [] h = rw (← (ok_injective h)) tt
  parse_test_entries-AreTests seen (node ∷ nodes) h =
      let (t, _, h1) = >>=-eq-ok (or_throw (as_table node) validation_error) _ h in
      let (name, _, h2) = >>=-eq-ok (require_string toml t (text "name")) _ h1 in
      let (p, _, h3) = >>=-eq-ok (require_string toml t (text "path")) _ h2 in
      let (_, a, h4) = >>=-eq-ok (throw_if (is_empty name) validation_error) _ h3 in
      let (_, rel, h5) = >>=-eq-ok (validate_relative_path is_absolute p) _ h4 in
      let (_, b, h6) = >>=-eq-ok (throw_if (contains name seen) validation_error) _ h5 in
      let (ts, rest, h7) =
        >>=-eq-ok (parse_test_entries is_absolute toml (name ∷ seen) nodes) _ h6 in
      rw (← (ok_injective h7)) (
        ne_nil name (throw_if-eq-ok _ validation_error a),
        throw_if-eq-ok _ validation_error b,
        relative_lem is_absolute p rel,
        parse_test_entries-AreTests (name ∷ seen) nodes rest,
      )

  pub tests_of-AreTests :
      (nodes : Option (List Node)) {ts : List TestTarget}
      → tests_of is_absolute toml nodes ≡ ok ts
      → AreTests is_absolute [] ts
  unfolding tests_of
  tests_of-AreTests none h = rw (← (ok_injective h)) tt
  tests_of-AreTests (some nodes) h = parse_test_entries-AreTests [] nodes h
