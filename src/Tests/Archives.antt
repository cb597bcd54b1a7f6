-- ===== src/Tests/Archives.antt =====
-- The entries of an archive.
use docker_in_k8s.Common.{ℕ, ◌+◌, ◌-◌, ◌^◌, ◌≤◌, ◌≡◌, ◌⊎◌, ◌↔◌, refl, [], arith}
use docker_in_k8s.Text.{codes, ◌==◌, split, join, clean, is_unsafe, has_prefix}
use docker_in_k8s.Result.{ok}
use docker_in_k8s.Build.Archive.{Header, regular, create, limit, add_size, safe_name, archive_entry}
use docker_in_k8s.Build.Archive.Laws.{WritesBelow, archive_entry-WritesBelow, add_size-accepts}

abbrev header : Header
header = record {
  name = codes "src/../app/main.go";
  kind = regular;
  size = 12;
  mode = 0o644;
  link_name = [];
}

archive_entry-WritesBelow_example :
    WritesBelow (codes "/tmp/context") (create (codes "/tmp/context/app/main.go") 0o644 12)
archive_entry-WritesBelow_example =
    archive_entry-WritesBelow (codes "/tmp/context") 100 header
      (create (codes "/tmp/context/app/main.go") 0o644 12) 112 accepted
  where
    accepted :
        archive_entry (codes "/tmp/context") 100 header
        ≡ ok (create (codes "/tmp/context/app/main.go") 0o644 12, 112)
    accepted =
        unfold archive_entry safe_name split join clean is_unsafe has_prefix add_size ◌==◌ in refl

-- A file of one byte, and one of the largest size that a header can have.
add_size-accepts_example :
    ((total' : ℕ) × (add_size 1 (2 ^ 63 - 1) ≡ ok total'))
    ↔ ((1 + (2 ^ 63 - 1) ≤ limit) ⊎ (2 ^ 63 ≤ 1 + (2 ^ 63 - 1)))
add_size-accepts_example = add_size-accepts 1 (2 ^ 63 - 1) (omega arith) (omega arith)
