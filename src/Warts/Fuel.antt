-- ===== src/Warts/Fuel.antt =====
-- The fuel of the loop over the ICMP extensions (warts/traceroute.go).
use reverse_traceroute_publi.Base.{
  ℕ, zero, suc, ◌+◌, ◌%◌, ◌^◌, ◌<◌, ◌≡◌, refl, ap, ◌∙◌, List, [], ◌∷◌, ◌++◌, length, if◌then◌else◌,
  ltb, arith,
}
use reverse_traceroute_publi.Warts.Reader.{Reader, Reading, got, failed, and_then, read_uint16}
use reverse_traceroute_publi.Warts.Shrinks.{
  Below, read_some-Below, pure-Below, wrapped-Below, and_then-Below, read-Below, read_uint8-Shrinks,
}
use reverse_traceroute_publi.Warts.Icmp.{IcmpExtension, read_icmp_extension, extensions_loop}

read_uint16-Below : (buf : List ℕ) → Below (length buf) (read_uint16 buf)
unfolding read_uint16
read_uint16-Below buf =
    wrapped-Below _ _
      (and_then-Below _ _ _ (read_some-Below 1 buf) (λ bs rest h. pure-Below _ _ rest h))

read_icmp_extension-Below : (buf : List ℕ) → Below (length buf) (read_icmp_extension buf)
unfolding read_icmp_extension
read_icmp_extension-Below buf = and_then-Below _ _ _ (read_uint16-Below buf) (λ l rest h.
    and_then-Below _ _ _ (read_uint8-Shrinks.shrink _ rest h) (λ class rest h.
      and_then-Below _ _ _ (read_uint8-Shrinks.shrink _ rest h) (λ typen rest h.
        and_then-Below _ _ _ (read-Below _ l rest h) (λ bs rest h. pure-Below _ _ rest h))))

and_then_same :
    {A B : Type 0} (n : ℕ) (m : Reading A) (f g : A → Reader B)
    → Below n m
    → ((a : A) (rest : List ℕ) → length rest < n → f a rest ≡ g a rest)
    → and_then m f ≡ and_then m g
unfolding Below and_then
and_then_same n (got a rest) f g h same = same a rest h
and_then_same n (failed e rest) f g h same = refl

-- More fuel than there are bytes left changes nothing: the loop ends before it runs out.
extensions_loop-fuel :
    (fuel l i : ℕ) (exts : List IcmpExtension) (buf : List ℕ)
    → length buf < fuel
    → extensions_loop (suc fuel) l i exts buf ≡ extensions_loop fuel l i exts buf
unfolding extensions_loop
extensions_loop-fuel zero l i exts buf h = grind arith
extensions_loop-fuel (suc fuel) l i exts buf h =
    let same =
      and_then_same _ (read_icmp_extension buf) _ _ (read_icmp_extension-Below buf)
        (λ ext rest shorter.
          extensions_loop-fuel fuel l ((i + (ext.ext_length + 4)) % 2 ^ 16) (exts ++ ext ∷ []) rest
            (omega arith)) in
    ap (λ more. if ltb i l then more else got exts buf) same

-- The loop over the ICMP extensions ends before its fuel runs out: any fuel above the number of
-- bytes left gives the same result.
extensions_loop-enough :
    (more l i : ℕ) (exts : List IcmpExtension) (buf : List ℕ)
    → extensions_loop (more + suc (length buf)) l i exts buf
      ≡ extensions_loop (suc (length buf)) l i exts buf
extensions_loop-enough zero l i exts buf =
    let same : 0 + suc (length buf) ≡ suc (length buf) = omega arith in
    ap (λ fuel. extensions_loop fuel l i exts buf) same
extensions_loop-enough (suc more) l i exts buf =
    let next : suc more + suc (length buf) ≡ suc (more + suc (length buf)) = omega arith in
    rw next (
      extensions_loop-fuel (more + suc (length buf)) l i exts buf (omega arith)
      ∙ extensions_loop-enough more l i exts buf)
