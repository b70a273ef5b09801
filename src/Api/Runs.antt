-- ===== src/Api/Runs.antt =====
-- Runs of deletion, iteration, and preserving on a list of two tags.
use libmp4tag.Api.Delete.{delete_tag-lookup_tag}
use libmp4tag.Api.Edit.{delete_tag}
use libmp4tag.Api.Get.{iterate_init}
use libmp4tag.Api.Lookup.{Asked}
use libmp4tag.Api.RoundTrip.{iterate_all, iterate_all-iterate_init}
use libmp4tag.Api.{lookup_tag, copy_to_pub}
use libmp4tag.CString.{Bytes, codes, strcmp, starts_with, strtok}
use libmp4tag.Const.{copyright, mp4tag_ident, id_string, pri_max, BoxId}
use libmp4tag.Prelude.{ℕ, ◌≡◌, refl, arith, true, false, none, some, [], ◌∷◌, map, length}
use libmp4tag.Files.{FileSystem}
use libmp4tag.Prelude.Int.{pos}
use libmp4tag.Search.{bsearch}
use libmp4tag.Tags.Consistent.{IsConsistent}
use libmp4tag.Tags.Find.{find_tag}
use libmp4tag.Tags.Name.{parse_tagname}
use libmp4tag.Tags.Set.{is_tag}
use libmp4tag.Tags.{Mp4tag, Libmp4tag, Mp4error, mp4tag_compare, compare_name}

abbrev named_tag : Bytes → Bytes → ℕ → Mp4tag
named_tag name value idx = record {
  tag = some name;
  value = some value;
  covername = none;
  datalen = length value;
  dataidx = pos 0;
  idx = idx;
  identtype = id_string;
  internallen = length value;
  priority = pos pri_max;
  binary = false;
}

abbrev album : Mp4tag
album = named_tag (copyright "alb") (codes "Album") 0

abbrev song : Mp4tag
song = named_tag (copyright "nam") (codes "Song") 1

abbrev two : Libmp4tag
two = record {
  libmp4tagident = mp4tag_ident;
  tags = some (album ∷ song ∷ []);
  tagalloccount = 10;
  datacount = 0;
  iterator = 0;
  mp4error = Mp4error.ok;
  parsed = true;
}

two-IsConsistent : IsConsistent two
unfolding mp4tag_compare compare_name strcmp
two-IsConsistent = record {
  ident = refl;
  tags = record { sorted = (((λ e. cc), tt), (tt, tt)); numbered = (refl, (refl, tt)) };
  room = omega arith;
  no_array = λ e. cc;
}

song_found : lookup_tag two (copyright "nam") ≡ some (1, song)
unfolding lookup_tag find_tag parse_tagname bsearch mp4tag_compare compare_name strcmp starts_with
    strtok
song_found = refl

song_not_cover : is_tag (parse_tagname (copyright "nam")).name BoxId.covr ≡ false
unfolding parse_tagname starts_with strtok
song_not_cover = refl

album-Asked : Asked (copyright "alb") album
unfolding parse_tagname strtok starts_with
album-Asked = record { tag = refl; dataidx = refl }

delete_tag-lookup_tag_example :
    (l : Libmp4tag) × (delete_tag (some two) (some (copyright "nam")) ≡ (some l, Mp4error.ok))
    × ((p : ℕ × Mp4tag) × (lookup_tag l (copyright "alb") ≡ some p))
delete_tag-lookup_tag_example =
    delete_tag-lookup_tag two (copyright "nam") (copyright "alb") {j = 0} {u = album}
      two-IsConsistent refl song_found song_not_cover (λ e. absurd (omega (arith, e))) refl
      album-Asked

iterate_all-iterate_init_example :
    iterate_all 3 (iterate_init (some two)).0 ≡ map copy_to_pub (album ∷ song ∷ [])
iterate_all-iterate_init_example = iterate_all-iterate_init two (album ∷ song ∷ []) refl refl refl

abbrev empty_disk : FileSystem
empty_disk = record { stat_size = λ p. none; open_read = λ p. none }
