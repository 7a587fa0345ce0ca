-- ===== src/Mng/Tables/Description.antt =====
-- The octets of the clock description, and that the functions write and read exactly those.
use libpmc.Base.{ℕ, ◌^◌, ◌<◌, ◌≡◌, refl, true, false, List, ◌++◌, length}
use libpmc.Wire.{net}
use libpmc.Wire.Codec.{Runs, Runs-bind, Runs-map}
use libpmc.Wire.Values.{
  IsShort, short_length, u16-write, u16-read, octets-write, octets-read, binary-write, binary-read,
}
use libpmc.Types.Codecs.{
  reserved-write, reserved-read, ValidAddress, sent_address, address_octets, address-write,
  address-read, ValidText, sent_text, text_octets, text-write, text-read,
}
use libpmc.Mng.Tables.{ClockDescription, clock_description_f}

pub record ValidClockDescription (d : ClockDescription) : Type 0 where
  pub type : d.clock_type < 2 ^ 16
  pub layer : ValidText d.physical_layer_protocol
  pub physical : IsShort d.physical_address
  pub protocol : ValidAddress d.protocol_address
  pub manufacturer : length d.manufacturer_identity ≡ 3
  pub product : ValidText d.product_description
  pub revision : ValidText d.revision_data
  pub user : ValidText d.user_description
  pub profile : length d.profile_identity ≡ 6

abbrev pub sent_clock_description : ClockDescription → ClockDescription
sent_clock_description d = record d {
  physical_layer_protocol = sent_text d.physical_layer_protocol;
  physical_address_length = length d.physical_address;
  protocol_address = sent_address d.protocol_address;
  product_description = sent_text d.product_description;
  revision_data = sent_text d.revision_data;
  user_description = sent_text d.user_description;
}

abbrev pub clock_description_octets : ClockDescription → List ℕ
clock_description_octets d =
    net 2 d.clock_type
    ++ (text_octets d.physical_layer_protocol
        ++ (net 2 (length d.physical_address)
            ++ (d.physical_address
                ++ (address_octets d.protocol_address
                    ++ (d.manufacturer_identity
                        ++ (net 1 0
                            ++ (text_octets d.product_description
                                ++ (text_octets d.revision_data
                                    ++ (text_octets d.user_description
                                        ++ d.profile_identity)))))))))

pub clock_description-write :
    (d : ClockDescription)
    → ValidClockDescription d
    → Runs true (clock_description_f d) (clock_description_octets d) (sent_clock_description d)
unfolding clock_description_f
clock_description-write d v = rw (short_length d.physical_address v.physical) (
    Runs-bind _ u16-write (
      Runs-bind _ (text-write v.layer) (
        Runs-bind _ u16-write (
          Runs-bind _ (binary-write _ _ v.physical) (
            Runs-bind _ (address-write v.protocol) (
              Runs-bind _ (octets-write 3 _ v.manufacturer) (
                Runs-bind _ reserved-write (
                  Runs-bind _ (text-write v.product) (
                    Runs-bind _ (text-write v.revision) (
                      Runs-bind _ (text-write v.user)
                        (Runs-map _ (octets-write 6 _ v.profile))))))))))))

pub clock_description-read :
    (w d : ClockDescription)
    → ValidClockDescription d
    → Runs false (clock_description_f w) (clock_description_octets d) (sent_clock_description d)
unfolding clock_description_f
clock_description-read w d v = Runs-bind _ (u16-read _ v.type) (
    Runs-bind _ (text-read _ v.layer) (
      Runs-bind _ (u16-read _ v.physical) (
        Runs-bind _ (binary-read _ _ _ refl) (
          Runs-bind _ (address-read _ v.protocol) (
            Runs-bind _ (octets-read 3 _ _ v.manufacturer) (
              Runs-bind _ reserved-read (
                Runs-bind _ (text-read _ v.product) (
                  Runs-bind _ (text-read _ v.revision) (
                    Runs-bind _ (text-read _ v.user)
                      (Runs-map _ (octets-read 6 _ _ v.profile)))))))))))
