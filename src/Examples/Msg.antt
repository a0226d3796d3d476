-- ===== src/Examples/Msg.antt =====
-- cpp/examples/msg.cpp: structs that are packed and unpacked.
use marko.Base.{ℕ, ◌<>◌, Bool, ◌&&◌, [], ◌∷◌, length, replicate, if◌then◌else◌}
use marko.Base.Int.{ℤ, pos, beq_ℤ}
use marko.Base.Decimal.{to_decimal, int_to_decimal}
use marko.System.{Message, System}
use marko.Socket.{newline}
use marko.Examples.Structs.{Codec, Doubles}

pub record DataT (Double : Type 0) : Type 0 where
  pub a : Double
  pub b : ℤ

pub record Data2T (Double : Type 0) : Type 0 where
  pub a : Double
  pub b : ℤ

module _ (S : System) (F : Doubles) (codec : Codec (DataT F.Double))
    (codec2 : Codec (Data2T F.Double)) where
  open S use {World}

  -- The loop over the bytes of `mm`.
  abbrev pub print_bytes : Message → World → World
  print_bytes [] w = w
  print_bytes (b ∷ mm) w = print_bytes mm (S.print (to_decimal b <> ",") w)

  -- `r.a == d.a && r.b == d.b`
  abbrev pub same_data : DataT F.Double → DataT F.Double → Bool
  same_data r d = F.equal r.a d.a && beq_ℤ r.b d.b

  -- It returns 0.
  unfoldable pub main : World → World
  main w =
      let d : DataT F.Double = record { a = F.decimal 11 1; b = pos 3 } in
      let dd : Data2T F.Double = record { a = F.decimal 22 1; b = pos 6 } in
      let m = codec.pack d in
      let mm = codec2.pack dd in
      let w1 = S.print newline (print_bytes mm w) in
      let r = codec.unpack m in
      let w2 =
        if same_data r d
        then S.print ("good: " <> (F.text r.a <> (" " <> (int_to_decimal r.b <> newline)))) w1
        else S.print ("bad" <> newline) w1 in
      S.print
        ("size of contructed: " <> (to_decimal (length (replicate {A = ℕ} 1024 0)) <> newline)) w2
