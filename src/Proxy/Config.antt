-- ===== src/Proxy/Config.antt =====
-- The constructor of `Proxy` (p3/proxy.cpp), which reads the configuration: a line for each port
-- that the proxy listens on, `port,ip:port,ip:port`. Strings are lists of bytes.
use multithread.Base.{
  ℕ, zero, suc, ◌≤◌, ◌<◌, ◌≡◌, refl, ◌∙◌, ap, true, false, List, [], ◌∷◌, ◌++◌, length, ◌==◌,
  if◌then◌else◌, arith, ==-refl, length-append,
}

-- A port, and the servers behind it, each with its address and its port.
pub record Source : Type 0 where
  pub src_port : List ℕ
  pub dsts : List (List ℕ × List ℕ)

-- `getline(stream, s, delimiter)`, as what it reads and what is left.
unfoldable pub getline : ℕ → List ℕ → List ℕ × List ℕ
getline delimiter [] = ([], [])
getline delimiter (c ∷ s) =
    let later = getline delimiter s in if c == delimiter then ([], s) else (c ∷ later.0, later.1)

-- The loop that fills `src_config`. A round that reads a line takes a byte at least, so one round
-- more than there are bytes is enough.
unfoldable pub read_lines : ℕ → List ℕ → List (List ℕ)
read_lines zero config = []
read_lines (suc fuel) config =
    let tmp = getline 10 config in
    elim (length tmp.0 == 0) [ true ↦ [] | false ↦ tmp.0 ∷ read_lines fuel tmp.1 ]

-- `erase(remove('\n'))`
unfoldable pub remove_newlines : List ℕ → List ℕ
remove_newlines [] = []
remove_newlines (c ∷ s) = if c == 10 then remove_newlines s else c ∷ remove_newlines s

-- The loop that fills `dsts`.
unfoldable pub read_dsts : ℕ → List ℕ → List (List ℕ × List ℕ)
read_dsts zero conf_src = []
read_dsts (suc fuel) conf_src =
    let ip = getline 58 conf_src in
    elim (length ip.0 == 0) [
      | true ↦ []
      | false ↦ let port = getline 44 ip.1 in (ip.0, remove_newlines port.0) ∷ read_dsts fuel port.1
    ]

unfoldable pub read_source : List ℕ → Source
read_source line =
    let port = getline 44 line in
    record { src_port = port.0; dsts = read_dsts (suc (length port.1)) port.1 }

unfoldable pub read_sources : List (List ℕ) → List Source
read_sources [] = []
read_sources (line ∷ src_config) = read_source line ∷ read_sources src_config

unfoldable pub read_config : List ℕ → List Source
read_config config = read_sources (read_lines (suc (length config)) config)

-- How a configuration is written.
abbrev pub print_dsts : List (List ℕ × List ℕ) → List ℕ
print_dsts [] = []
print_dsts ((ip, port) ∷ []) = ip ++ 58 ∷ port
print_dsts ((ip, port) ∷ d ∷ dsts) = ip ++ (58 ∷ (port ++ 44 ∷ print_dsts (d ∷ dsts)))

abbrev pub print_source : Source → List ℕ
print_source s = s.src_port ++ 44 ∷ print_dsts s.dsts

abbrev pub print_config : List Source → List ℕ
print_config [] = []
print_config (s ∷ sources) = print_source s ++ 10 ∷ print_config sources

-- The byte does not stand in the string.
abbrev pub Lacks : ℕ → List ℕ → Type 0
Lacks d [] = Unit
Lacks d (c ∷ s) = ((c == d) ≡ false) × Lacks d s

abbrev pub AreServers : List (List ℕ × List ℕ) → Type 0
AreServers [] = Unit
AreServers ((ip, port) ∷ dsts) =
    ((0 < length ip) × Lacks 58 ip × Lacks 10 ip × Lacks 44 port × Lacks 10 port) × AreServers dsts

abbrev pub AreSources : List Source → Type 0
AreSources [] = Unit
AreSources (s ∷ sources) =
    (Lacks 44 s.src_port × Lacks 10 s.src_port × AreServers s.dsts) × AreSources sources

getline-print : (d : ℕ) (s rest : List ℕ) → Lacks d s → getline d (s ++ d ∷ rest) ≡ (s, rest)
unfolding getline
getline-print d [] rest h = rw (==-refl d) refl
getline-print d (c ∷ s) rest h =
    rw (h.0) (ap (λ (p : List ℕ × List ℕ). (c ∷ p.0, p.1)) (getline-print d s rest h.1))

getline-last : (d : ℕ) (s : List ℕ) → Lacks d s → getline d s ≡ (s, [])
unfolding getline
getline-last d [] h = refl
getline-last d (c ∷ s) h =
    rw (h.0) (ap (λ (p : List ℕ × List ℕ). (c ∷ p.0, p.1)) (getline-last d s h.1))

remove_newlines-Lacks : (s : List ℕ) → Lacks 10 s → remove_newlines s ≡ s
unfolding remove_newlines
remove_newlines-Lacks [] h = refl
remove_newlines-Lacks (c ∷ s) h = rw (h.0) (ap (◌∷◌ c) (remove_newlines-Lacks s h.1))

nonzero : (s : List ℕ) → 0 < length s → (length s == 0) ≡ false
nonzero s h = ground arith

read_dsts-step :
    (fuel : ℕ) (conf ip rest port behind : List ℕ)
    → getline 58 conf ≡ (ip, rest)
    → 0 < length ip
    → getline 44 rest ≡ (port, behind)
    → Lacks 10 port
    → read_dsts (suc fuel) conf ≡ (ip, port) ∷ read_dsts fuel behind
unfolding read_dsts
read_dsts-step fuel conf ip rest port behind e more e' newline =
    rw (read_dsts, ap (λ (p : List ℕ × List ℕ). length p.0 == 0) e ∙ nonzero ip more)
      (ap
          (λ (p : List ℕ × List ℕ).
            (p.0, remove_newlines (getline 44 p.1).0) ∷ read_dsts fuel (getline 44 p.1).1)
          e
        ∙ ap (λ (p : List ℕ × List ℕ). (ip, remove_newlines p.0) ∷ read_dsts fuel p.1) e'
        ∙ ap (λ l. (ip, l) ∷ read_dsts fuel behind) (remove_newlines-Lacks port newline))

read_lines-step :
    (fuel : ℕ) (config tmp rest : List ℕ)
    → getline 10 config ≡ (tmp, rest)
    → 0 < length tmp
    → read_lines (suc fuel) config ≡ tmp ∷ read_lines fuel rest
unfolding read_lines
read_lines-step fuel config tmp rest e more =
    rw (read_lines, ap (λ (p : List ℕ × List ℕ). length p.0 == 0) e ∙ nonzero tmp more)
      (ap (λ (p : List ℕ × List ℕ). p.0 ∷ read_lines fuel p.1) e)

read_dsts-empty : (fuel : ℕ) → read_dsts fuel [] ≡ []
unfolding read_dsts getline
read_dsts-empty zero = refl
read_dsts-empty (suc fuel) = refl

read_dsts-print :
    (fuel : ℕ) (dsts : List (List ℕ × List ℕ))
    → AreServers dsts
    → length dsts < fuel
    → read_dsts fuel (print_dsts dsts) ≡ dsts
read_dsts-print zero dsts h f = absurd (omega arith)
read_dsts-print (suc fuel) [] h f = read_dsts-empty (suc fuel)
read_dsts-print (suc zero) ((ip, port) ∷ dsts) h f = absurd (omega arith)
read_dsts-print (suc (suc fuel)) ((ip, port) ∷ []) ((more, colon, l, comma, newline), h) f =
    read_dsts-step (suc fuel) (ip ++ 58 ∷ port) ip port port [] (getline-print 58 ip port colon)
      more (getline-last 44 port comma) newline
    ∙ ap (◌∷◌ (ip, port)) (read_dsts-empty (suc fuel))
read_dsts-print (suc (suc fuel)) ((ip, port) ∷ d ∷ dsts) ((more, colon, l, comma, newline), h) f =
    let behind = print_dsts (d ∷ dsts) in
    read_dsts-step (suc fuel) (print_dsts ((ip, port) ∷ d ∷ dsts)) ip (port ++ 44 ∷ behind) port
      behind (getline-print 58 ip (port ++ 44 ∷ behind) colon) more
      (getline-print 44 port behind comma) newline
    ∙ ap (◌∷◌ (ip, port)) (read_dsts-print (suc fuel) (d ∷ dsts) h (omega arith))

length-print_dsts :
    (dsts : List (List ℕ × List ℕ)) → AreServers dsts → length dsts ≤ length (print_dsts dsts)
length-print_dsts [] h = omega arith
length-print_dsts ((ip, port) ∷ []) ((more, c, l, m, n), h) =
    omega (arith, more, length-append ip (58 ∷ port))
length-print_dsts ((ip, port) ∷ d ∷ dsts) ((more, c, l, m, n), h) = omega (
  arith,
  length-append ip (58 ∷ (port ++ 44 ∷ print_dsts (d ∷ dsts))),
  length-append port (44 ∷ print_dsts (d ∷ dsts)),
  length-print_dsts (d ∷ dsts) h,
)

read_source-print :
    (s : Source) → Lacks 44 s.src_port → AreServers s.dsts → read_source (print_source s) ≡ s
unfolding read_source
read_source-print s comma servers =
    rw
      (
        getline-print 44 s.src_port (print_dsts s.dsts) comma,
        read_dsts-print (suc (length (print_dsts s.dsts))) s.dsts servers
            (omega (arith, length-print_dsts s.dsts servers)),
      )
      refl

Lacks-append : (d : ℕ) (s t : List ℕ) → Lacks d s → Lacks d t → Lacks d (s ++ t)
Lacks-append d [] t hs ht = ht
Lacks-append d (c ∷ s) t hs ht = (hs.0, Lacks-append d s t hs.1 ht)

print_dsts-Lacks : (dsts : List (List ℕ × List ℕ)) → AreServers dsts → Lacks 10 (print_dsts dsts)
print_dsts-Lacks [] h = tt
print_dsts-Lacks ((ip, port) ∷ []) ((more, c, l, m, n), h) =
    Lacks-append 10 ip (58 ∷ port) l (refl, n)
print_dsts-Lacks ((ip, port) ∷ d ∷ dsts) ((more, c, l, m, n), h) =
    Lacks-append 10 ip (58 ∷ (port ++ 44 ∷ print_dsts (d ∷ dsts))) l (
      refl,
      Lacks-append 10 port (44 ∷ print_dsts (d ∷ dsts)) n (refl, print_dsts-Lacks (d ∷ dsts) h),
    )

read_lines-print :
    (fuel : ℕ) (sources : List Source)
    → AreSources sources
    → length sources < fuel
    → read_sources (read_lines fuel (print_config sources)) ≡ sources
unfolding read_lines read_sources getline
read_lines-print zero sources h f = absurd (omega arith)
read_lines-print (suc fuel) [] h f = refl
read_lines-print (suc fuel) (s ∷ sources) ((comma, newline, servers), h) f =
    let whole = print_source s in
    ap read_sources (
      read_lines-step fuel (print_config (s ∷ sources)) whole (print_config sources)
        (getline-print 10 whole (print_config sources) (
          Lacks-append 10 s.src_port (44 ∷ print_dsts s.dsts) newline
            (refl, print_dsts-Lacks s.dsts servers)))
        (omega (arith, length-append s.src_port (44 ∷ print_dsts s.dsts))))
    ∙ ap (λ l. l ∷ read_sources (read_lines fuel (print_config sources)))
        (read_source-print s comma servers)
    ∙ ap (◌∷◌ s) (read_lines-print fuel sources h (omega arith))

length-print_config : (sources : List Source) → length sources ≤ length (print_config sources)
length-print_config [] = omega arith
length-print_config (s ∷ sources) =
    omega (
      arith,
      length-append (print_source s) (10 ∷ print_config sources),
      length-print_config sources,
    )

-- A configuration is read back as it was written, if no address is empty, and no port or address
-- holds the byte that ends it or a newline.
pub read_config-print :
    (sources : List Source) → AreSources sources → read_config (print_config sources) ≡ sources
unfolding read_config
read_config-print sources h =
    read_lines-print (suc (length (print_config sources))) sources h
      (omega (arith, length-print_config sources))
