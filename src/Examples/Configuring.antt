-- ===== src/Examples/Configuring.antt =====
-- Tests of the configuration file and of the trimming of strings.
use xiao_hg_server.Base.{
  Bool, false, codes, ℕ, pos, ◌≡◌, refl, true, false, List, [], ◌∷◌, some, arith,
}
use xiao_hg_server.Conf.{
  get_int_default, decimal_before, same_name, ConfItem, items, is_skipped, Loaded, load, read_lines,
  decimal,
}
use xiao_hg_server.Conf.Bounds.{AllFit, load-AllFit}
use xiao_hg_server.Conf.Ends.{LinesEnd, read_lines-LinesEnd}
use xiao_hg_server.Conf.Lookup.{number_item, get_int_default-file_of}
use xiao_hg_server.Conf.RoundTrip.{IsEntry, last_char, file_of, load-file_of}
use xiao_hg_server.Text.{trim}
use xiao_hg_server.Text.Spaces.{without_spaces, trim-without_spaces}
use xiao_hg_server.Text.Trim.{ends_with, starts_with}

-- The item `Daemon=1`.
abbrev daemon_item : ConfItem
daemon_item = record { item_name = 68 ∷ 97 ∷ 101 ∷ 109 ∷ 111 ∷ 110 ∷ []; item_content = 49 ∷ [] }

daemon_item_starts : is_skipped daemon_item.item_name ≡ false
unfolding is_skipped
daemon_item_starts = refl

daemon_item-IsEntry : IsEntry daemon_item
daemon_item-IsEntry =
    let r : (false ≡ false) × (false ≡ false) = (refl, refl) in
    record {
      name_plain = (r, (r, (r, (r, (r, (r, tt))))));
      name_signless = (refl, (refl, (refl, (refl, (refl, (refl, tt))))));
      name_starts = daemon_item_starts;
      name_ends = ends_with (68 ∷ 97 ∷ 101 ∷ 109 ∷ 111 ∷ []) 110 (omega arith);
      name_short = omega arith;
      content_plain = ((refl, refl), tt);
      content_starts = starts_with 49 [] (omega arith);
      content_ends = last_char [] 49 refl;
      line_short = omega arith;
    }

-- A comment, and a line with spaces: `#a`, ` a = b `.
abbrev small_file : List ℕ
small_file = 35 ∷ 97 ∷ 10 ∷ 97 ∷ 32 ∷ 61 ∷ 32 ∷ 98 ∷ 32 ∷ 10 ∷ []

abbrev spaced : List ℕ
spaced = 32 ∷ 97 ∷ 32 ∷ 98 ∷ 32 ∷ 32 ∷ []

load-file_of_example :
    load false (some (file_of (daemon_item ∷ []))) ≡ some (true, items (daemon_item ∷ []))
load-file_of_example = load-file_of (daemon_item ∷ []) (daemon_item-IsEntry, tt)

load-AllFit_example : (r : Bool × Loaded) × (load false (some small_file) ≡ some r) × AllFit r.1
load-AllFit_example = load-AllFit (some small_file)

-- A read fails behind the end of the bytes that are there.
read_lines-LinesEnd_example :
    LinesEnd true
      (read_lines true 11 small_file (items []))
      (read_lines true 500 small_file (items []))
read_lines-LinesEnd_example =
    read_lines-LinesEnd true 11 500 small_file (items []) (omega arith) (omega arith)

trim-without_spaces_example : trim spaced ≡ without_spaces spaced
trim-without_spaces_example = trim-without_spaces spaced

-- The item `Port=7`.
abbrev port_item : ConfItem
port_item = number_item (codes "Port") 7

port_item_starts : is_skipped (codes "Port") ≡ false
unfolding is_skipped
port_item_starts = refl

port_item-IsEntry : IsEntry port_item
unfolding decimal decimal_before
port_item-IsEntry =
    let r : (false ≡ false) × (false ≡ false) = (refl, refl) in
    record {
      name_plain = (r, (r, (r, (r, tt))));
      name_signless = (refl, (refl, (refl, (refl, tt))));
      name_starts = port_item_starts;
      name_ends = ends_with (codes "Por") 116 (omega arith);
      name_short = omega arith;
      content_plain = (r, tt);
      content_starts = starts_with 55 [] (omega arith);
      content_ends = last_char [] 55 refl;
      line_short = omega arith;
    }

names_differ : same_name daemon_item.item_name (codes "PORT") ≡ false
unfolding same_name
names_differ = refl

names_agree : same_name (codes "Port") (codes "PORT") ≡ true
unfolding same_name
names_agree = refl

get_int_default-file_of_example :
    (load false (some (file_of (daemon_item ∷ port_item ∷ [])))
      ≡ some (true, items (daemon_item ∷ port_item ∷ [])))
    × (get_int_default (daemon_item ∷ port_item ∷ []) (codes "PORT") (pos 80) ≡ pos 7)
get_int_default-file_of_example =
    get_int_default-file_of (daemon_item ∷ []) [] (codes "Port") (codes "PORT") 7 (pos 80)
      (omega arith) (daemon_item-IsEntry, (port_item-IsEntry, tt)) (names_differ, tt) names_agree
