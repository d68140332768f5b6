-- ===== src/Lib.antt =====
-- slap prints text files on label printers. This library models its own code, slap/*.c, and proves
-- what makes its parts correct.
--
-- The parts and the files:
-- * The renderer, slap/render.c. Render.Glyph has set_labelimage_bit and put_glyph, with the loops
--   over the glyph's rows and columns as counted loops; Render.Overstrike has the backspace loop,
--   Render.Box boxit, and Render.Page the loop for a tab, render1 and render. An arena (ARENA of
--   slap/slap.h) is a bitmap and its dirty mark; a page is the arena, the position of the text and
--   the labels that were sent to the driver. The text comes as the buffers that fgets delivers,
--   each up to its NUL.
-- * Fonts, slap/mjsfont.h, slap/chekfont.c, slap/savefont.c and slap/loadfont.c: Font and
--   Font.File.
-- * The driver for the SLP-1x00 printers, slap/slplus.c. Slplus.Map and Slplus.Stream have the two
--   halves of printlabel as functions, from the bitmap to bands of slices and from a band to bytes.
--   Slplus.Line has the driver's STATE; Slplus.Status recv_bytes, sense and force; Slplus.Wait
--   check_loaded, check_fault, wait_for_idle, wait_for_ready, reset_printer, send_byte and
--   formfeed; Slplus.Label printlabel as a whole; Slplus.Setup geometry, setmedia, hres and vres;
--   Slplus.Channel init_channel; Slplus.Device ping, connect, disconnect, opendev and closedev.
-- * The driver for the SLP-Pro family, slap/slpro.c. Slpro.Models has the table of models,
--   geometry, vres and hres; Slpro.Line the driver's STATE with what the driver has done to the
--   port, and Host, what the build decides; Slpro.Status the status bits, recv_bytes, sense and
--   force; Slpro.Wait check_loaded, check_closed, check_fault, wait_for_idle, wait_for_ready,
--   send_bytes, send_byte, formfeed, ping, getmodel, set_baud and reset_printer, where the
--   functions that call check_fault and are called by it take it as an argument; Slpro.Map the
--   first half of printlabel, from the bitmap to rows of slices, with the slop; Slpro.Label
--   printlabel as a whole; Slpro.Channel init_channel; Slpro.Setup set_margin and setmedia;
--   Slpro.Device set_density, set_printer_modes, switch_baud, connect, disconnect, opendev and
--   closedev.
-- * The font tools: Makefont has dumpchar of slap/dumpfont.c, and of slap/makefont.c import_glyph
--   and the loops of import that call it and fill the gaps, with what scanf finds as a parameter;
--   Makefont.Import has import and main.
-- * The serial port. Serial has the Port, which says how each system call on it ends, the events
--   that a driver's run records (bytes that are sent, drains, flushes, new settings), and the runs
--   over a driver's state, which both drivers use. Serial.Modes has the modes that init_channel
--   sets. Serial.Traffic is about what runs write, Serial.Safety about what stays true of the
--   state, and Serial.Silence about a port where no printer answers.
-- * The helpers of slap/port.c: Tty.Baud has the tables of baud rates, set_baud_mapping, val2baud,
--   baud2val and baudcmp, Tty.Open opentty and closetty, Tty.Lock fxlock. Slpro.Device has use_cts,
--   avoid_cts and try_cts, and Tty.Claim what connect of both drivers does before init_channel.
-- * The signal catcher of slap/sig.c is in Signals. The search for a font, try_locate_font and
--   locate_font of slap/slap.c, is in Locate.
-- * main of slap/slap.c is in Program, with what getflags finds as a record.
-- * The driver that writes bitmap files, slap/mbmd.c: Mbmd. The table of drivers, slap/glue.c:
--   Glue. The media and the session, slap/session.c: Media and Session.
-- The bytes that the drivers send are given to abstract printers: Slplus.Stream.Sheet is a printer
-- that takes the commands of the SLP-1x00, with a head and a paper; Slpro.Label.Printer is one for
-- the SLP-Pro; and Slpro.Device.Link follows the rates at the two ends of the line and the bytes
-- between them. The renderer draws with the bitmap library and hands each finished arena to the
-- driver's print; the session finds the driver in the table and has it make the arena. The SLP-Pro
-- driver takes its rates from Tty.Baud, and the renderer's font is the one that Locate finds.
--
-- Conventions. A run that may end early is a Result: a failed assert, a division by zero, a wild
-- pointer and a call of Error, which does not return, are its faults (Base.Result). UINT and USHORT
-- wrap at 2^32 and 2^16 (Base.Words), and a SHORT is an integer. The products with 6.30 and 3.86
-- dots per millimetre are taken exactly, in hundredths; for the sizes that a BYTE holds they are
-- cut off to the same integers as the doubles.
-- Parameters. The bitmap routines are those of the separate MJS Portable C Library, of which
-- mjsulib is a copy: Bitmap.BitmapLib and Font.File.BitmapFiles have them, with the laws that its
-- manual states. The serial port, the clock and the printer are a Serial.Port. What opening a
-- device does is a parameter of Glue and Session. Program.World has the drivers, the fonts and the
-- files. Tty.Open has a record of how the system calls end, Tty.Lock a function that gives each
-- attempt its outcome and time, and Locate a function that says which paths a font can be loaded
-- from.
-- Loops. Loops over an array are structural or counted. The loop for a tab has 8 rounds, which are
-- enough when the column does not wrap. The loops of the drivers that wait for the printer have
-- fuel, a parameter: one more than the number of buffers that have arrived is enough for sense, and
-- two are enough for printlabel on a printer that is idle at every poll; where no printer answers,
-- nine are enough for opendev. The loop of fxlock has fuel as well: more than its timeout is enough
-- if the clock goes on. The loop over the glyphs of a font that is imported has fuel too, and one
-- more than the buffers in the file is enough.
--
-- Not modelled: statstr of slap/slplus.c and slap/slpro.c, which makes a text for traces; baud2name
-- of slap/port.c, which gives a name for messages, and isctty, which nothing calls; the texts of
-- the messages of slap/slap.c, and slap/identity.c, which prints text; in slap/makefont.c the
-- copyright and what is printed on the way with -v; slap/dropfont.c, which frees memory; and
-- mjsulib, a library of another project. Traces are off.
pub mod Base
pub mod Bitmap
pub mod Font
pub mod Render
pub mod Media
pub mod Slplus
pub mod Glue
pub mod Tty
pub mod Slpro
pub mod Serial
pub mod Signals
pub mod Locate
pub mod Makefont
pub mod Program
pub mod Mbmd
pub mod Session
mod Tests
