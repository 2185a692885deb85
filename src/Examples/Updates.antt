-- ===== src/Examples/Updates.antt =====
-- Versions, downloads and updates.
use dokkup.Common.{
  zero, suc, ℕ, ◌+◌, ◌≤◌, ◌≡◌, refl, true, false, none, some, [], ◌∷◌, arith, ltb, if◌then◌else◌,
  ◌==◌, Text, number_key, text_key, ◌↔◌, Option, length,
}
use dokkup.Common.Strings.{codes, trim_space, to_lower}
use dokkup.Release.{parse_version, compare_versions, newer, same_version, is_release, asset_name}
use dokkup.Release.Fetch.{checksum_for, Origin, fetch, fetch_verified}
use dokkup.Release.Transfer.{
  Arrival, more, ended, Reply, Delivers, and_more, at_end, Transferred, transfer, whole, Offers,
  read_once, copy,
}
use dokkup.Release.Transfer.Laws.{transfer_ends}
use dokkup.Updater.{Host, Machine, updated, names_version, refusal_of, update}
use dokkup.Updater.Outcomes.{Leaves, update-Leaves}
use dokkup.Updater.Success.{update_succeeds}

first : newer (codes "v1.10.0") (codes "1.9.0") ≡ true
unfolding newer compare_versions parse_version trim_space
first = refl

second : newer (codes "1.9.0") (codes "1.2.9") ≡ true
unfolding newer compare_versions parse_version trim_space
second = refl

candidate_alike : same_version (codes "v0.2.0-rc1") (codes "0.2.0") ≡ true
unfolding same_version compare_versions parse_version trim_space
candidate_alike = refl

is_itself : same_version (codes "0.2.0") (codes "0.2.0") ≡ true
unfolding same_version compare_versions parse_version trim_space
is_itself = refl

abbrev digest : Text
digest = codes "0123456789abcdef0123456789abcdef0123456789abcdef0123456789abcdef"

abbrev new_binary : Text
new_binary = codes "new"

abbrev listing : Text
listing =
    codes "0123456789abcdef0123456789abcdef0123456789abcdef0123456789ABCDEF *dokkup_linux_arm64"

abbrev published : Origin
published = record {
  download = λ name. some (if name == codes "SHA256SUMS" then listing else new_binary);
  sha256 = λ content. digest;
  signature = λ content. none;
  set_up = true;
}

sum_found : checksum_for listing (codes "dokkup_linux_arm64") ≡ some digest
unfolding checksum_for to_lower
sum_found = refl

fetched : fetch published (codes "arm64") ≡ some (new_binary, false)
unfolding fetch checksum_for to_lower
fetched = refl

fetch_verified_example :
    (name : Text) × (sums : Text) × (asset_name (codes "arm64") ≡ some name)
    × (published.download name ≡ some new_binary)
    × (published.download (codes "SHA256SUMS") ≡ some sums)
    × (checksum_for sums name ≡ some (published.sha256 new_binary))
    × (published.signature new_binary ≡ (if false then some true else none))
fetch_verified_example = fetch_verified published (codes "arm64") new_binary false fetched

abbrev machine : Machine
machine = record {
  fails = λ n. false;
  restarts = λ n. true;
  probe = λ n. if ltb n 7 then none else some (codes "0.2.0");
  polls = λ n. 20;
  resolve = λ want. some (codes "0.2.0");
  origin = λ version. published;
  goarch = codes "arm64";
  current = codes "0.1.0";
}

abbrev installed_host : Host
installed_host = record {
  binary = some (codes "old");
  previous = none;
  downloads = codes "leftover" ∷ [];
  tick = 0;
}

update-Leaves_example :
    let r = update machine none false installed_host in
    Leaves machine none false installed_host (codes "old") r.0 r.1
update-Leaves_example = update-Leaves machine none false installed_host (codes "old") refl

not_refused : refusal_of (codes "0.1.0") (codes "0.2.0") false ≡ none
unfolding newer same_version is_release compare_versions parse_version trim_space
not_refused = refl

answers : (n : ℕ) → 0 + 7 ≤ n → names_version (machine.probe n) (codes "0.2.0") ≡ true
answers n h = ground (arith, is_itself)

update_succeeds_example : (update machine none false installed_host).0 ≡ updated
update_succeeds_example =
    update_succeeds machine none false installed_host (codes "old") (codes "0.2.0") new_binary false
      7 refl refl not_refused fetched (λ n. refl) (λ n. refl) (λ n. omega arith) answers

-- two bytes at once, one more, and the end
abbrev arriving : ℕ → Arrival
arriving zero = more 3 7 (8 ∷ [])
arriving (suc zero) = more 4 9 []
arriving _ = ended 0

abbrev offered : Option Reply
offered = some (record { status = 200; body = arriving })

abbrev three_bytes : Text
three_bytes = 7 ∷ 8 ∷ 9 ∷ []

arriving-Delivers : Delivers 5 arriving 0 three_bytes
arriving-Delivers =
    and_more 0 3 7 (8 ∷ []) (9 ∷ []) refl (omega arith)
      (and_more 1 4 9 [] [] refl (omega arith) (at_end 2 0 refl (omega arith)))

transfer_ends_example :
    (t : Transferred) × (transfer 6 5 4 offered ≡ some t)
    × (t.after ≤ 30)
    × ((t.outcome ≡ whole three_bytes) ↔ (Offers 5 offered three_bytes × (length three_bytes ≤ 4)))
transfer_ends_example = transfer_ends 5 4 offered three_bytes

got_whole : transfer 6 5 4 offered ≡ some (record { outcome = whole three_bytes; after = 7 })
unfolding transfer copy read_once
got_whole = refl
