-- ===== src/Loader/Tests/Files.antt =====
-- A file of seven bytes that yields at most two at a time.
use qemu_dll_shadps.Base.{
  ℕ, zero, suc, ◌+◌, ◌-◌, ◌≡◌, ℤ, pos, refl, ap, ◌∙◌, false, none, some, List, [], ◌∷◌, min, length,
  take, drop, length-take, length-drop, done, fail, arith,
}
use qemu_dll_shadps.Loader.Types.{Error}
use qemu_dll_shadps.Loader.HostFile.{Host, HostFile, host_file_seek, host_file_read, read_exact}
use qemu_dll_shadps.Loader.HostFile.Exact.{IsRegular, read_exact_lem, read_exact_past}

abbrev contents : List ℕ
contents = 10 ∷ 20 ∷ 30 ∷ 40 ∷ 50 ∷ 60 ∷ 70 ∷ []

-- The state of the host is the file's position.
abbrev slow_read : ℕ → ℕ → List ℕ
slow_read h n = take (min n 2) (drop h contents)

abbrev slow_host : Host ℕ
slow_host = record {
  path_is_brokered = λ path. false;
  storage_open = λ h path. (pos 0, pos 0, h);
  storage_seek = λ h fd off w. (pos 0, h);
  storage_read = λ h fd n. (none, h);
  storage_close = λ h fd. h;
  os_open = λ h path. (pos 3, 0);
  os_seek = λ h fd off w. (pos off, off);
  os_read = λ h fd n. (some (slow_read h n), h + length (slow_read h n));
  os_close = λ h fd. h;
}

abbrev opened : HostFile
opened = record { brokered = false; fd = pos 3; handle = ℤ.negsuc 0; path = 46 ∷ [] }

take-length-take : (n : ℕ) (xs : List ℕ) → take n xs ≡ take (length (take n xs)) xs
take-length-take zero xs = refl
take-length-take (suc n) [] = refl
take-length-take (suc n) (x ∷ xs) = ap (λ ys. x ∷ ys) (take-length-take n xs)

slow_length : (h n : ℕ) → length (slow_read h n) ≡ min (min n 2) (length contents - h)
slow_length h n =
    length-take (min n 2) (drop h contents) ∙ ap (λ k. min (min n 2) k) (length-drop h contents)

slow-IsRegular : IsRegular slow_host opened contents (λ h. h)
unfolding host_file_seek host_file_read
slow-IsRegular = record {
  seeks = λ h off low. (refl, refl);
  reads = λ h n.
      let size = slow_length h n in
      (
        slow_read h n,
        refl,
        refl,
        omega arith,
        take-length-take (min n 2) (drop h contents),
        λ e some_wanted. omega arith,
      );
}

read_exact_lem_example :
    (h' : ℕ) × (read_exact slow_host opened 0 1 5 ≡ done (take 5 (drop 1 contents)) h')
read_exact_lem_example =
    read_exact_lem slow_host opened contents (λ h. h) slow-IsRegular 0 1 5 (omega arith)
      (omega arith) (omega arith)

read_exact_past_example :
    (h' : ℕ) × (read_exact slow_host opened 0 4 5 ≡ fail Error.unexpected_end h')
read_exact_past_example =
    read_exact_past slow_host opened contents (λ h. h) slow-IsRegular 0 4 5 (omega arith)
      (omega arith) (omega arith) (omega arith)
