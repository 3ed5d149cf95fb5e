-- ===== src/Loader/HostFile/Exact.antt =====
-- shadps4_read_exact over a file that behaves as documented: short reads are made up for.
use qemu_dll_shadps.Base.{
  ℕ, zero, suc, ◌+◌, ◌-◌, ◌%◌, ◌^◌, ◌≤◌, ◌<◌, ◌≡◌, refl, sym, ap, subst, ◌∙◌, false, some, List, [],
  ◌∷◌, ◌++◌, ltb, length, take, drop, drop-drop, take-append-take, length-take, length-drop,
  append_assoc, append-nil, done, fail, arith,
}
use qemu_dll_shadps.Loader.Types.{Error}
use qemu_dll_shadps.Loader.HostFile.{
  Host, HostFile, seek_set, is_negative, host_file_seek, host_file_read, read_loop, read_exact,
}

-- What lseek and read document of a regular file with these contents, `pos h` being its position:
-- a seek below 2^63 succeeds, and a read of `n` bytes yields at most `n` of those at the position,
-- and none only at the end.
pub record IsRegular {H : Type 0} (host : Host H) (file : HostFile) (contents : List ℕ)
    (pos : H → ℕ) : Type 0 where
  pub seeks :
      (h : H) (off : ℕ)
      → off < 2 ^ 63
      → (is_negative (host_file_seek host file h off seek_set).0 ≡ false)
        × (pos (host_file_seek host file h off seek_set).1 ≡ off)
  pub reads :
      (h : H) (n : ℕ)
      → (bs : List ℕ) × ((host_file_read host file h n).0 ≡ some bs)
        × (pos (host_file_read host file h n).1 ≡ pos h + length bs)
        × (length bs ≤ n)
        × (bs ≡ take (length bs) (drop (pos h) contents))
        × (length bs ≡ 0 → 0 < n → length contents ≤ pos h)

module _ {H : Type 0} (host : Host H) (file : HostFile) (contents : List ℕ) (pos : H → ℕ)
    (regular : IsRegular host file contents pos) where
  -- One round that reads the chunk `b ∷ rest`.
  read_loop_chunk :
      (fuel : ℕ) (h : H) (size b : ℕ) (rest out : List ℕ)
      → (host_file_read host file h (suc size)).0 ≡ some (b ∷ rest)
      → length rest ≤ size
      → suc size < 2 ^ 64
      → read_loop host (suc fuel) file h (suc size) out
        ≡ read_loop host fuel file
            (host_file_read host file h (suc size)).1
            (size - length rest)
            (out ++ b ∷ rest)
  unfolding read_loop
  read_loop_chunk fuel h size b rest out e le small =
      let left : (suc size + 2 ^ 64 - suc (length rest)) % 2 ^ 64 ≡ size - length rest =
        omega arith in
      rw (e, read_loop) (rw left)

  -- The bytes of a chunk and those behind it.
  chunk_joins :
      (out bs : List ℕ) (p n : ℕ)
      → bs ≡ take (length bs) (drop p contents)
      → length bs ≤ n
      → (out ++ bs) ++ take (n - length bs) (drop (p + length bs) contents)
        ≡ out ++ take n (drop p contents)
  chunk_joins out bs p n e le =
      rw (append_assoc, ← drop-drop (length bs) p contents)
        (ap (λ l. out ++ l)
          (subst
            (λ l.
              l ++ take (n - length bs) (drop (length bs) (drop p contents))
              ≡ take n (drop p contents))
            (sym e) (take-append-take (length bs) n (drop p contents) le)))

  read_loop_in :
      (fuel : ℕ) (h : H) (size : ℕ) (out : List ℕ)
      → size ≤ fuel
      → size < 2 ^ 64
      → pos h + size ≤ length contents
      → (h' : H) × (read_loop host fuel file h size out
          ≡ done (out ++ take size (drop (pos h) contents)) h')
  unfolding read_loop
  read_loop_in fuel h zero out le small fits = (h, rw append-nil)
  read_loop_in zero h (suc size) out le small fits = absurd (omega arith)
  read_loop_in (suc fuel) h (suc size) out le small fits =
      go (regular.reads h (suc size)).0 (regular.reads h (suc size)).1
        (regular.reads h (suc size)).2 (regular.reads h (suc size)).3 (regular.reads h (suc size)).4
        (regular.reads h (suc size)).5
        (λ n o. read_loop_in fuel (host_file_read host file h (suc size)).1 n o)
    where
      h1 : H
      h1 = (host_file_read host file h (suc size)).1

      go :
          (bs : List ℕ)
          → (host_file_read host file h (suc size)).0 ≡ some bs
          → pos h1 ≡ pos h + length bs
          → length bs ≤ suc size
          → bs ≡ take (length bs) (drop (pos h) contents)
          → (length bs ≡ 0 → 0 < suc size → length contents ≤ pos h)
          → ((n : ℕ) (o : List ℕ)
              → n ≤ fuel
              → n < 2 ^ 64
              → pos h1 + n ≤ length contents
              → (h' : H) × (read_loop host fuel file h1 n o
                  ≡ done (o ++ take n (drop (pos h1) contents)) h'))
          → (h' : H) × (read_loop host (suc fuel) file h (suc size) out
              ≡ done (out ++ take (suc size) (drop (pos h) contents)) h')
      go [] e p short bytes atEnd ih = absurd (omega (arith, atEnd refl (omega arith)))
      go (b ∷ rest) e p short bytes atEnd ih =
          let (h', q) =
            ih (size - length rest) (out ++ b ∷ rest) (omega arith) (omega arith) (omega arith) in
          let left : suc size - length (b ∷ rest) ≡ size - length rest = omega arith in
          (
            h',
            read_loop_chunk fuel h size b rest out e (omega arith) small
                ∙ q
                ∙ ap (λ l. done l h')
                    (rw p (
                      subst
                        (λ k.
                          (out ++ b ∷ rest) ++ take k (drop (pos h + length (b ∷ rest)) contents)
                          ≡ out ++ take (suc size) (drop (pos h) contents))
                        left (chunk_joins out (b ∷ rest) (pos h) (suc size) bytes short))),
          )

  -- A round that reads nothing.
  read_loop_end :
      (fuel : ℕ) (h : H) (size : ℕ) (out : List ℕ)
      → (host_file_read host file h (suc size)).0 ≡ some []
      → read_loop host (suc fuel) file h (suc size) out
        ≡ fail Error.unexpected_end (host_file_read host file h (suc size)).1
  unfolding read_loop
  read_loop_end fuel h size out e = rw (e, read_loop)

  -- Past the end of the file the loop reports it.
  read_loop_past :
      (fuel : ℕ) (h : H) (size : ℕ) (out : List ℕ)
      → size ≤ fuel
      → size < 2 ^ 64
      → pos h ≤ length contents
      → length contents < pos h + size
      → (h' : H) × (read_loop host fuel file h size out ≡ fail Error.unexpected_end h')
  read_loop_past fuel h zero out le small in' past = absurd (omega arith)
  read_loop_past zero h (suc size) out le small in' past = absurd (omega arith)
  read_loop_past (suc fuel) h (suc size) out le small in' past =
      go (regular.reads h (suc size)).0 (regular.reads h (suc size)).1
        (regular.reads h (suc size)).2 (regular.reads h (suc size)).3 (regular.reads h (suc size)).4
        (λ n o. read_loop_past fuel (host_file_read host file h (suc size)).1 n o)
    where
      h1 : H
      h1 = (host_file_read host file h (suc size)).1

      go :
          (bs : List ℕ)
          → (host_file_read host file h (suc size)).0 ≡ some bs
          → pos h1 ≡ pos h + length bs
          → length bs ≤ suc size
          → bs ≡ take (length bs) (drop (pos h) contents)
          → ((n : ℕ) (o : List ℕ)
              → n ≤ fuel
              → n < 2 ^ 64
              → pos h1 ≤ length contents
              → length contents < pos h1 + n
              → (h' : H) × (read_loop host fuel file h1 n o ≡ fail Error.unexpected_end h'))
          → (h' : H) × (read_loop host (suc fuel) file h (suc size) out
              ≡ fail Error.unexpected_end h')
      go [] e p short bytes ih = (h1, read_loop_end fuel h size out e)
      go (b ∷ rest) e p short bytes ih =
          let held : length (b ∷ rest) ≤ length contents - pos h = omega (
            arith,
            ap length bytes,
            length-take (length (b ∷ rest)) (drop (pos h) contents),
            length-drop (pos h) contents,
          ) in
          let (h', q) =
            ih (size - length rest) (out ++ b ∷ rest) (omega arith) (omega arith) (omega arith)
              (omega arith) in
          (h', read_loop_chunk fuel h size b rest out e (omega arith) small ∙ q)

  -- On a regular file, however it splits its reads, shadps4_read_exact returns exactly the `size`
  -- bytes from `offset` on, if the file has them, `offset` is below 2^63 and `size` below 2^64.
  pub read_exact_lem :
      (h : H) (offset size : ℕ)
      → size < 2 ^ 64
      → offset < 2 ^ 63
      → offset + size ≤ length contents
      → (h' : H) × (read_exact host file h offset size ≡ done (take size (drop offset contents)) h')
  unfolding read_exact
  read_exact_lem h offset size small low fits =
      let (up, at) = regular.seeks h offset low in
      let h1 = (host_file_seek host file h offset seek_set).1 in
      let test : ltb (2 ^ 63 - 1) offset ≡ false = ground arith in
      let (h', e) = read_loop_in size h1 size [] (omega arith) small (omega arith) in
      (h', rw (test, up) (e ∙ ap (λ k. done (take size (drop k contents)) h') at))

  -- On a regular file, a range of fewer than 2^64 bytes that starts inside the file, below 2^63, and
  -- ends past it is reported as an unexpected end, never
  -- returned in part.
  pub read_exact_past :
      (h : H) (offset size : ℕ)
      → size < 2 ^ 64
      → offset < 2 ^ 63
      → offset ≤ length contents
      → length contents < offset + size
      → (h' : H) × (read_exact host file h offset size ≡ fail Error.unexpected_end h')
  unfolding read_exact
  read_exact_past h offset size small low start past =
      let (up, at) = regular.seeks h offset low in
      let h1 = (host_file_seek host file h offset seek_set).1 in
      let test : ltb (2 ^ 63 - 1) offset ≡ false = ground arith in
      let (h', e) =
        read_loop_past size h1 size [] (omega arith) small (omega arith) (omega arith) in
      (h', rw (test, up) e)
